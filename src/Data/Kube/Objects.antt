-- ===== src/Data/Kube/Objects.antt =====
-- The Kubernetes objects that k8sRepo of internal/data/k8sInstance.go makes and changes, with the fields
-- that it reads or sets. What it only sends back is `rest`.
use run_all_resource.Prelude.{
  ℕ, ◌-◌, ◌%◌, ◌^◌, String, ℤ, pos, negsuc, Option, List, ltb, if◌then◌else◌,
}
use run_all_resource.Data.Quota.{ResourceList}

abbrev pub Labels : Type 0
Labels = List (String × String)

-- `int32(n)` of a uint32
unfoldable pub to_int32 : ℕ → ℤ
to_int32 n = let low = n % 2 ^ 32 in if ltb low (2 ^ 31) then pos low else negsuc (2 ^ 32 - low - 1)

pub record Namespace : Type 0 where
  pub name : String
  pub labels : Labels

pub record ServicePort : Type 0 where
  pub name : String
  pub protocol : String
  pub port : ℤ
  pub target_port : ℤ

-- an entry of `status.loadBalancer.ingress`
pub record LoadBalancerIngress : Type 0 where
  pub ip : String
  pub hostname : String

pub record Service : Type 0 where
  pub name : String
  pub namespace : String
  pub labels : Labels
  pub type : String
  pub selector : Labels
  pub ports : List ServicePort
  pub load_balancer : List LoadBalancerIngress
  pub rest : ℕ

-- `entries` is the field Data, `none` where it is nil
pub record ConfigMap : Type 0 where
  pub name : String
  pub entries : Option Labels
  pub rest : ℕ

pub record Container : Type 0 where
  pub name : String
  pub image : String
  pub command : List String
  pub requests : ResourceList
  pub limits : ResourceList

pub record Deployment : Type 0 where
  pub name : String
  pub namespace : String
  pub labels : Labels
  pub replicas : ℕ
  pub match_labels : Labels
  pub pod_labels : Labels
  pub containers : List Container
  pub node_selector : Labels
  pub rest : ℕ

pub record Scale : Type 0 where
  pub name : String
  pub replicas : ℕ
  pub rest : ℕ

pub record Ingress : Type 0 where
  pub name : String
  pub namespace : String
  pub labels : Labels
  pub annotations : Labels
  pub class_name : String
  pub host : String
  pub path : String
  pub path_type : String
  pub service_name : String
  pub service_port : ℤ
