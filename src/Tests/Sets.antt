-- ===== src/Tests/Sets.antt =====
-- Bit sets with 3 and 33, and with 33, below 40.
use pebil.Common.{ℕ, ◌≡◌, ◌*◌, ◌↔◌, refl, Bool, true, some, ◌==◌, ◌&&◌, ◌||◌, not, arith, ◌%◌, ◌^◌}
use pebil.Containers.BitSet.{
  BitSet, new, insert, contains, remove, unite, intersect, subtract, is_subset_of, setall,
  internal_count,
}
use pebil.Containers.BitSet.Operators.{IsProper, Yields, new-IsProper, operators_lem}
use pebil.Containers.BitSet.Insert.{insert-IsProper}
use pebil.Containers.BitSet.Remove.{remove-contains}
use pebil.Containers.BitSet.Subset.{is_subset_of_iff}
use pebil.Containers.BitSet.Full.{unite-setall}

abbrev one : BitSet
one = insert 33 (new 40)

abbrev two : BitSet
two = insert 3 one

one-IsProper : IsProper one
one-IsProper = insert-IsProper 33 (new 40) (new-IsProper 40 (omega arith))

two-IsProper : IsProper two
two-IsProper = insert-IsProper 3 one one-IsProper

same_maximum : two.maximum ≡ one.maximum
unfolding insert new
same_maximum = refl

operators_lem_example :
    Yields (λ x y. x || y) two one (unite two one)
    × Yields (λ x y. x && y) two one (intersect two one)
    × Yields (λ x y. x && not y) two one (subtract two one)
operators_lem_example = operators_lem two one two-IsProper one-IsProper same_maximum

remove-contains_example :
    IsProper (remove 33 two)
    × ((j : ℕ) → contains (remove 33 two) j ≡ (contains two j && not (33 == j)))
remove-contains_example = remove-contains 33 two two-IsProper

is_subset_of_iff_example :
    (b : Bool) × (is_subset_of two one ≡ some b)
    × ((b ≡ true) ↔ ((j : ℕ) → contains two j ≡ true → contains one j ≡ true))
is_subset_of_iff_example = is_subset_of_iff two one two-IsProper one-IsProper same_maximum

unite-setall_example :
    (u : BitSet) × (unite (setall (new 5)) (setall (new 5)) ≡ some u)
    × (u.cardinality ≡ internal_count (new 5).maximum * 32 % 2 ^ 32)
unite-setall_example = unite-setall (new 5)
