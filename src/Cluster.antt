-- ===== src/Cluster.antt =====
-- coreinit/cluster_scheduler.c: the one scheduling authority of the cluster.
pub mod Objects
pub mod State
pub mod Resources
pub mod Nodes
pub mod Jobs
pub mod Pick
pub mod Handlers
pub mod JobHandlers
pub mod Dispatch
pub mod Quiet
pub mod Asks
pub mod Keeps
pub mod Traces
mod Examples
