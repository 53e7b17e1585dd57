-- ===== src/Data/Kube/Client.antt =====
-- The calls of client-go that k8sRepo makes, over a state of the cluster, and how they run beside the
-- settings of the repository, whose port counter changes.
use run_all_resource.Prelude.{String, List}
use run_all_resource.Go.{M, ok}
use run_all_resource.Data.PortPool.{K8sSettings}
use run_all_resource.Data.Kube.Objects.{Namespace, Service, ConfigMap, Deployment, Scale, Ingress}

-- the first argument is the namespace; a label selector is the text that is sent
pub record K8sClient (W : Type 0) : Type 0 where
  pub get_namespace : String → M W Namespace
  pub create_namespace : Namespace → M W (Unit {0})
  pub create_deployment : String → Deployment → M W (Unit {0})
  pub get_deployment : String → String → M W Deployment
  pub update_deployment : String → Deployment → M W (Unit {0})
  pub delete_deployment : String → String → M W (Unit {0})
  pub get_scale : String → String → M W Scale
  pub update_scale : String → String → Scale → M W (Unit {0})
  pub create_service : String → Service → M W (Unit {0})
  pub get_service : String → String → M W Service
  pub update_service : String → Service → M W (Unit {0})
  pub delete_service : String → String → M W (Unit {0})
  pub list_services : String → String → M W (List Service)
  pub create_ingress : String → Ingress → M W (Unit {0})
  pub delete_ingress : String → String → M W (Unit {0})
  pub delete_ingresses : String → String → M W (Unit {0})
  pub get_config_map : String → String → M W ConfigMap
  pub update_config_map : String → ConfigMap → M W (Unit {0})

-- the cluster, and the fields of the repository
abbrev pub Repo : Type 0 → Type 0
Repo W = W × K8sSettings

module _ {W : Type 0} where
  abbrev pub call : {A : Type 0} → M W A → M (Repo W) A
  call m (w, r) = let (a, w') = m w in (a, (w', r))

  abbrev pub settings : M (Repo W) K8sSettings
  settings (w, r) = (ok r, (w, r))
