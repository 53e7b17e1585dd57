-- ===== src/Data/PortPool.antt =====
-- The pool of external ports in `k8sRepo`, internal/data/k8sInstance.go: its configuration in
-- NewK8sRepo, and allocateExternalPort. The counter is a uint32.
pub mod Sequence
use run_all_resource.Prelude.{
  ℕ, zero, suc, ◌+◌, ◌%◌, ◌^◌, String, Option, none, some, List, [], ◌∷◌, ltb, ◌==◌, str_eq,
  if◌then◌else◌,
}

-- the part of the Kubernetes configuration that the repository reads
pub record KubernetesConf : Type 0 where
  pub kubeconfig : String
  pub ingress_domain : String
  pub ingress_nginx_namespace : String
  pub ingress_nginx_lb_service : String
  pub tcp_udp_port_range_start : ℕ
  pub tcp_udp_port_range_end : ℕ

pub record K8sSettings : Type 0 where
  pub ingress_domain : String
  pub ingress_nginx_namespace : String
  pub ingress_nginx_lb_service : String
  pub tcp_udp_port_range_start : ℕ
  pub tcp_udp_port_range_end : ℕ
  pub next_available_port : ℕ

abbrev empty_conf : KubernetesConf
empty_conf = record {
  kubeconfig = "";
  ingress_domain = "";
  ingress_nginx_namespace = "";
  ingress_nginx_lb_service = "";
  tcp_udp_port_range_start = 0;
  tcp_udp_port_range_end = 0;
}

abbrev given : Option KubernetesConf → KubernetesConf
given none = empty_conf
given (some c) = c

abbrev or_default : String → String → String
or_default s default = if str_eq s "" then default else s

-- NewK8sRepo, without the client
unfoldable pub new_k8s_settings : Option KubernetesConf → K8sSettings
new_k8s_settings conf =
    let c = given conf in
    let start = if c.tcp_udp_port_range_start == 0 then 30000 else c.tcp_udp_port_range_start in
    record {
      ingress_domain = or_default c.ingress_domain "demo.localtest.me";
      ingress_nginx_namespace = or_default c.ingress_nginx_namespace "ingress-nginx";
      ingress_nginx_lb_service = or_default c.ingress_nginx_lb_service "ingress-nginx-controller";
      tcp_udp_port_range_start = start;
      tcp_udp_port_range_end =
          if c.tcp_udp_port_range_end == 0 then 32767 else c.tcp_udp_port_range_end;
      next_available_port = start;
    }

-- 0 says that the pool is exhausted; the counter wraps around as a uint32
unfoldable pub allocate_external_port : K8sSettings → ℕ × K8sSettings
allocate_external_port r = if ltb r.tcp_udp_port_range_end r.next_available_port then (0, r) else (
  r.next_available_port,
  record r { next_available_port = (r.next_available_port + 1) % 2 ^ 32 },
)

-- a number of calls one after the other, and what each of them returned
unfoldable pub allocations : ℕ → K8sSettings → List ℕ × K8sSettings
allocations zero r = ([], r)
allocations (suc n) r =
    let (port, r') = allocate_external_port r in
    let (ports, r'') = allocations n r' in (port ∷ ports, r'')
