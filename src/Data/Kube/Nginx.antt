-- ===== src/Data/Kube/Nginx.antt =====
-- The TCP and UDP ports of ingress-nginx: patchIngressNginxConfigMap, patchIngressNginxServicePort,
-- DeleteTCPUDPConfigMapEntry, removeIngressNginxServicePort and CreateServiceForTCPUDP of
-- internal/data/k8sInstance.go.
pub mod Ports
pub mod RoundTrip
pub mod Claims
pub mod Exposed
use run_all_resource.Prelude.{
  ℕ, String, append, ℤ, int_eq, Bool, true, false, ◌||◌, ◌&&◌, Option, none, some, List, [], ◌∷◌,
  ◌++◌, ◌==◌, str_eq, if◌then◌else◌,
}
use run_all_resource.Go.{
  Error, plain, wrap, is_not_found, Result, ok, err, M, pure, fail, attempt, ignore, on_error,
  ◌>>=◌, ◌>>◌,
}
use run_all_resource.Go.Text.{to_lower}
use run_all_resource.Go.Decimal.{itoa}
use run_all_resource.Biz.Instance.{join}
use run_all_resource.Data.Names.{generate_service_name}
use run_all_resource.Data.PortPool.{K8sSettings, allocate_external_port}
use run_all_resource.Data.Kube.Objects.{Labels, ServicePort, Service, ConfigMap, to_int32}
use run_all_resource.Data.Kube.Client.{K8sClient, Repo, call, settings}
use run_all_resource.Data.Kube.Labels.{insert, remove}
use run_all_resource.Data.Kube.Services.{service_of}

abbrev pub entries_or_empty : Option Labels → Labels
entries_or_empty none = []
entries_or_empty (some m) = m

-- `cm.Data[key] = value`, on a map that is made where there is none
unfoldable pub set_entry : ConfigMap → String → String → ConfigMap
set_entry cm key value = record cm {
  entries = some (insert (entries_or_empty cm.entries) key value);
}

-- `p.Port == int32(externalPort) && string(p.Protocol) == protocol`
unfoldable pub is_port : ℕ → String → ServicePort → Bool
is_port external protocol p = int_eq p.port (to_int32 external) && str_eq p.protocol protocol

unfoldable pub has_port : ℕ → String → List ServicePort → Bool
has_port external protocol [] = false
has_port external protocol (p ∷ ps) = is_port external protocol p || has_port external protocol ps

unfoldable pub nginx_port : ℕ → String → ServicePort
nginx_port external protocol = record {
  name = append (to_lower protocol) (append "-" (itoa external));
  protocol = if str_eq protocol "TCP" then "TCP" else "UDP";
  port = to_int32 external;
  target_port = to_int32 external;
}

-- the loop of removeIngressNginxServicePort
unfoldable pub without_port : ℕ → String → List ServicePort → List ServicePort
without_port external protocol [] = []
without_port external protocol (p ∷ ps) =
    let rest = without_port external protocol ps in
    if is_port external protocol p then rest else p ∷ rest

-- the ConfigMap of a protocol
unfoldable pub config_map_name : String → Option String
config_map_name protocol =
    if str_eq protocol "TCP"
    then some "tcp-services"
    else if str_eq protocol "UDP"
    then some "udp-services"
    else none

unfoldable pub invalid_protocol : String → Error
invalid_protocol protocol =
    plain (append "invalid protocol " (append protocol ", must be TCP or UDP"))

module _ {W : Type 0} (client : K8sClient W) (r : K8sSettings) where
  unfoldable pub patch_config_map : String → String → String → M W (Unit {0})
  patch_config_map name key value = do
    cm ←
        on_error (wrap (append "failed to get ConfigMap " name))
          (client.get_config_map r.ingress_nginx_namespace name)
    on_error (wrap (append "failed to update ConfigMap " name))
        (client.update_config_map r.ingress_nginx_namespace (set_entry cm key value))

  add_port : ℕ → String → Service → M W (Unit {0})
  add_port external protocol svc =
      let update = on_error (wrap "failed to update ingress-nginx Service") (
        client.update_service r.ingress_nginx_namespace
          (record svc { ports = svc.ports ++ nginx_port external protocol ∷ [] })) in
      if has_port external protocol svc.ports then pure tt else update

  unfoldable pub patch_service_port : ℕ → String → M W (Unit {0})
  unfolding add_port
  patch_service_port external protocol =
      on_error (wrap "failed to get ingress-nginx Service")
        (client.get_service r.ingress_nginx_namespace r.ingress_nginx_lb_service)
      >>= add_port external protocol

  drop_port : ℕ → String → Service → M W (Unit {0})
  drop_port external protocol svc =
      let update = on_error (wrap "failed to update ingress-nginx Service") (
        client.update_service r.ingress_nginx_namespace
          (record svc { ports = without_port external protocol svc.ports })) in
      if has_port external protocol svc.ports then update else pure tt

  unfoldable pub remove_service_port : ℕ → String → M W (Unit {0})
  unfolding drop_port
  remove_service_port external protocol =
      on_error (wrap "failed to get ingress-nginx Service")
        (client.get_service r.ingress_nginx_namespace r.ingress_nginx_lb_service)
      >>= drop_port external protocol

  -- the entry is deleted where the ConfigMap has any
  drop_entry : String → ℕ → ConfigMap → Option Labels → M W (Unit {0})
  drop_entry name external cm none = pure tt
  drop_entry name external cm (some m) =
      on_error (wrap (append "failed to update ConfigMap " name)) (
        client.update_config_map r.ingress_nginx_namespace
          (record cm { entries = some (remove m (itoa external)) }))

  after_get_config_map : String → ℕ → String → Result ConfigMap → M W (Unit {0})
  after_get_config_map name external protocol (err e) =
      if is_not_found e then pure tt else fail (wrap (append "failed to get ConfigMap " name) e)
  after_get_config_map name external protocol (ok cm) = do
    drop_entry name external cm cm.entries
    ignore (remove_service_port external protocol)

  delete_entry_in : Option String → String → ℕ → M W (Unit {0})
  delete_entry_in none protocol external = fail (invalid_protocol protocol)
  delete_entry_in (some name) protocol external =
      attempt (client.get_config_map r.ingress_nginx_namespace name)
      >>= after_get_config_map name external protocol

  unfoldable pub delete_tcp_udp_config_map_entry : String → ℕ → M W (Unit {0})
  unfolding delete_entry_in after_get_config_map drop_entry
  delete_tcp_udp_config_map_entry protocol external =
      delete_entry_in (config_map_name protocol) protocol external

module _ {W : Type 0} (client : K8sClient W) where
  -- the deletion of the service in a roll back, whose error is dropped
  take_back : String → String → M W (Unit {0})
  take_back namespace name = ignore (client.delete_service namespace name)

  after_patch_service :
      K8sSettings → String → String → ℕ → String → Result (Unit {0}) → M W (String × ℕ)
  after_patch_service r namespace name external protocol (ok _) = pure (name, external)
  after_patch_service r namespace name external protocol (err e) = do
    ignore (delete_tcp_udp_config_map_entry client r protocol external)
    take_back namespace name
    fail (wrap "failed to patch ingress-nginx Service" e)

  after_patch_config_map :
      K8sSettings → String → String → ℕ → String → Result (Unit {0}) → M W (String × ℕ)
  after_patch_config_map r namespace name external protocol (err e) = do
    take_back namespace name
    fail (wrap "failed to patch ConfigMap" e)
  after_patch_config_map r namespace name external protocol (ok _) =
      attempt (patch_service_port client r external protocol)
      >>= after_patch_service r namespace name external protocol

  -- the external port is entered in the ConfigMap and added to the service of ingress-nginx
  enter_port : K8sSettings → String → String → String → ℕ → String → ℕ → M W (String × ℕ)
  enter_port r map_name namespace name port protocol external =
      let exhausted : M W (String × ℕ) =
        take_back namespace name >> fail (plain "external port pool exhausted") in
      let entered =
        attempt (
          patch_config_map client r map_name (itoa external)
            (join (namespace ∷ "/" ∷ name ∷ ":" ∷ itoa port ∷ [])))
        >>= after_patch_config_map r namespace name external protocol in
      if external == 0 then exhausted else entered

  -- `allocateExternalPort`, which changes the counter of the repository
  allocate : M (Repo W) ℕ
  allocate (w, r) = let (port, r') = allocate_external_port r in (ok port, (w, r'))

  after_create_service : String → String → String → ℕ → String → M (Repo W) (String × ℕ)
  after_create_service map_name namespace id port protocol = do
    external ← allocate
    r ← settings
    call (enter_port r map_name namespace (generate_service_name id port) port protocol external)

  create_for : Option String → String → String → ℕ → String → M (Repo W) (String × ℕ)
  create_for none namespace id port protocol = fail (invalid_protocol protocol)
  create_for (some map_name) namespace id port protocol = do
    call (
        on_error (wrap "failed to create service")
          (client.create_service namespace (service_of namespace id port protocol)))
    after_create_service map_name namespace id port protocol

  unfoldable pub create_service_for_tcp_udp : String → String → ℕ → String → M (Repo W) (String × ℕ)
  unfolding create_for after_create_service enter_port after_patch_config_map after_patch_service
      take_back allocate
  create_service_for_tcp_udp namespace id port protocol =
      create_for (config_map_name protocol) namespace id port protocol
