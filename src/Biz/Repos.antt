-- ===== src/Biz/Repos.antt =====
-- The repository interfaces of internal/biz/resource.go over a state `W` of the world, and the use
-- case that holds one of each. A call may change the world also where it returns an error.
use run_all_resource.Prelude.{ℕ, String, Option, List, ℤ}
use run_all_resource.Go.{M, ok}
use run_all_resource.Biz.Types.{
  AuditInformation, InstanceSpec, ExecOptions, NetworkBinding, Resource, ListResourcesFilter,
}

pub record AuditRepo (W : Type 0) : Type 0 where
  pub create_audit : AuditInformation → M W (Unit {0})

pub record InstanceRepo (W : Type 0) : Type 0 where
  pub create_instance : InstanceSpec → M W (Unit {0})
  pub list_resources : ListResourcesFilter → M W (List Resource)
  pub get_resource : ℤ → M W (Option Resource)
  pub list_resource_specs : List ℤ → M W (List (ℤ × InstanceSpec))

pub record K8sRepo (W : Type 0) : Type 0 where
  pub create_instance : InstanceSpec → M W (Unit {0})
  pub delete_instance : String → String → M W (Unit {0})
  pub stop_instance : String → String → M W (Unit {0})
  pub start_instance : String → String → M W (Unit {0})
  pub update_instance : InstanceSpec → M W (Unit {0})
  pub create_service_for_tcp_udp : String → String → ℕ → String → M W (String × ℕ)
  pub create_service_for_http : String → String → ℕ → M W String
  pub delete_service : String → String → M W (Unit {0})
  pub delete_tcp_udp_config_map_entry : String → ℕ → M W (Unit {0})
  pub create_ingress : String → String → ℕ → String → String → M W (String × String)
  pub delete_ingress : String → String → M W (Unit {0})
  pub get_ingress_domain : String
  pub get_ingress_nginx_lb_ip : M W String

-- The channels of an exec session are part of the world.
pub record ExecRepo (W : Type 0) : Type 0 where
  pub stream_exec : ExecOptions → M W (Unit {0})

pub record NetworkRepo (W : Type 0) : Type 0 where
  pub create_network_binding : NetworkBinding → M W (Unit {0})
  pub update_network_binding : NetworkBinding → M W (Unit {0})
  pub delete_network_binding : ℤ → ℕ → M W (Unit {0})
  pub get_network_binding : ℤ → ℕ → M W (Option NetworkBinding)
  pub list_network_bindings : ℤ → M W (List NetworkBinding)
  pub batch_delete_network_bindings : ℤ → M W (Unit {0})

-- `clock` is what time.Now() returns.
pub record ResourceUsecase (W : Type 0) : Type 0 where
  pub instance_spec : InstanceRepo W
  pub audit_repo : AuditRepo W
  pub k8s_repo : K8sRepo W
  pub network_repo : NetworkRepo W
  pub exec_repo : ExecRepo W
  pub clock : W → ℕ

module _ {W : Type 0} where
  abbrev pub now : ResourceUsecase W → M W ℕ
  now uc w = (ok (uc.clock w), w)
