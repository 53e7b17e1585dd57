-- ===== src/Data/Kube.antt =====
-- The cluster repository of internal/data/k8sInstance.go over the calls of client-go.
pub mod Objects
pub mod Client
pub mod Labels
pub mod Deployments
pub mod Services
pub mod Nginx
pub mod Repo
