-- ===== src/Graph.antt =====
-- src/FlowGraph.C: control flow graphs.
pub mod Loop
