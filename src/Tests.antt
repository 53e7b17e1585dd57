-- ===== src/Tests.antt =====
-- Tests: a concrete use case over lists in memory, and the properties at concrete inputs.
pub mod Sample
pub mod Ports
pub mod Instances
pub mod Requests
pub mod Queue
pub mod Cluster
pub mod Kube
pub mod Bindings
pub mod Rows
pub mod Listing
pub mod Masked
pub mod Consumer
pub mod Topology
pub mod Shell
pub mod Exec
pub mod Startup
