-- ===== src/Containers.antt =====
-- The containers of include/.
pub mod PriorityQueue
pub mod BitSet
