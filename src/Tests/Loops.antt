-- ===== src/Tests/Loops.antt =====
-- The bit set and a natural loop.
use pebil.Common.{
  ℕ, zero, suc, ◌<◌, ◌≡◌, ◌↔◌, refl, true, some, [], ◌∷◌, arith, ltb, ◌==◌, ◌&&◌, ◌||◌,
}
use pebil.Containers.BitSet.{BitSet, new, insert, contains}
use pebil.Containers.BitSet.Laws.{IsValid, insert-contains, new-IsValid}
use pebil.Graph.Loop.{Graph, sources, natural_loop}
use pebil.Graph.Loop.Visit.{elem}
use pebil.Graph.Loop.Natural.{InLoop, IsGraph, natural_loop-InLoop}

insert-contains_example :
    IsValid (insert 33 (new 40))
    × ((j : ℕ) → contains (insert 33 (new 40)) j ≡ ((33 == j && ltb 33 40) || contains (new 40) j))
unfolding new
insert-contains_example = insert-contains 33 (new 40) (new-IsValid 40).0

-- A loop of blocks 1 and 2, with an entry and an exit.
abbrev graph : Graph
graph = [] ∷ (0 ∷ 2 ∷ []) ∷ (1 ∷ []) ∷ (2 ∷ []) ∷ []

graph-IsGraph : IsGraph graph
unfolding elem
graph-IsGraph = record { inside = inside }
  where
    inside : (b p : ℕ) → elem p (sources graph b) ≡ true → p < 4
    inside zero p h = absurd cc
    inside (suc zero) p h = ground arith
    inside (suc (suc zero)) p h = ground arith
    inside (suc (suc (suc zero))) p h = ground arith
    inside (suc (suc (suc (suc b)))) p h = absurd cc

natural_loop-InLoop_example :
    (t : BitSet) × (natural_loop graph (new 4) 2 1 ≡ some t)
    × IsValid t
    × ((v : ℕ) → (contains t v ≡ true) ↔ InLoop graph 2 1 v)
unfolding new
natural_loop-InLoop_example =
    natural_loop-InLoop graph (new 4) 2 1 graph-IsGraph refl (omega arith) (omega arith)
