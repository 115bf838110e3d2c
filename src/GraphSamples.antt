-- ===== src/GraphSamples.antt =====
-- The small programs on rte_graph: graph/sample, graph/node_sched, graph/two_start_with_worker,
-- graph_private_context/sample and feature_arc/graph_arc. lib/graph is not part of the repository: a
-- walk runs the source nodes and then the nodes that have been given objects; whether a node runs that
-- has been given no objects is up to it.
pub mod Walks
pub mod NodeSched
pub mod Hello
pub mod Workers
pub mod Arc
pub mod Context
