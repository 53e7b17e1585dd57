-- ===== src/Biz.antt =====
-- The business layer, internal/biz/resource.go: its data, the repositories that it takes, and the use
-- case's methods.
pub mod Types
pub mod Repos
pub mod Instance
pub mod Ports
pub mod Exec
