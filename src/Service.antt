-- ===== src/Service.antt =====
-- The service layer, internal/service/resource.go.
pub mod Consume
pub mod FieldMask
pub mod PortConfigs
pub mod Lifecycle
pub mod Listing
pub mod Exec
