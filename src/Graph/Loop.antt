-- ===== src/Graph/Loop.antt =====
-- src/FlowGraph.C, `FlowGraph::buildLoops`: the natural loop of one back edge. A basic block is its
-- index, and the graph the list of each block's source blocks; loopStack is a list with its top first.
pub mod Visit
pub mod Natural
use pebil.Common.{
  ℕ, zero, suc, ◌+◌, Bool, true, false, Option, none, some, List, [], ◌∷◌, if◌then◌else◌, get_or,
  length,
}
use pebil.Containers.BitSet.{BitSet, contains, insert, clear}

abbrev pub Graph : Type 0
Graph = List (List ℕ)

-- getNumberOfSources and getSourceBlock
abbrev pub sources : Graph → ℕ → List ℕ
sources g block = get_or g block []

-- The `for` over the sources of `top`: the set and the stack.
unfoldable pub visit_sources : List ℕ → BitSet → List ℕ → BitSet × List ℕ
visit_sources [] in_loop stack = (in_loop, stack)
visit_sources (pred ∷ preds) in_loop stack = elim (contains in_loop pred) [
  | true ↦ visit_sources preds in_loop stack
  | false ↦ visit_sources preds (insert pred in_loop) (pred ∷ stack)
]

-- The `while`, on fuel: each block is pushed once at most.
unfoldable pub loop_body : ℕ → Graph → List ℕ → BitSet → Option BitSet
unfolding visit_sources
loop_body fuel g [] in_loop = some in_loop
loop_body zero g (top ∷ stack) in_loop = none
loop_body (suc fuel) g (top ∷ stack) in_loop =
    let r = visit_sources (sources g top) in_loop stack in loop_body fuel g r.1 r.0

-- The blocks of the loop with the back edge from `from` to `to`. `set` is inLoop as it is left from the
-- edge before.
unfoldable pub natural_loop : Graph → BitSet → ℕ → ℕ → Option BitSet
natural_loop g set from to =
    let head = insert to (clear set) in
    if contains head from
    then loop_body (suc (length g)) g [] head
    else loop_body (suc (length g)) g (from ∷ []) (insert from head)
