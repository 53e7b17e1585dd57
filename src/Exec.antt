-- ===== src/Exec.antt =====
-- An exec session: the goroutines of ExecContainer (internal/service/resource.go) and of StreamExec
-- (internal/data/exec.go), which run interleaved and meet in channels and pipes.
pub mod Inbound
pub mod State
pub mod Outbound
pub mod Session
pub mod Pods
