-- ===== src/Data.antt =====
-- The data layer, internal/data.
pub mod Names
pub mod PortPool
pub mod Quota
pub mod MaskPassword
pub mod Kube
pub mod Network
pub mod Instances
pub mod Exec
pub mod Clients
