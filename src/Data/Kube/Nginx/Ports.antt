-- ===== src/Data/Kube/Nginx/Ports.antt =====
-- Entering an external port in ingress-nginx and taking it out again, in a cluster that keeps what is
-- written to it.
use run_all_resource.Prelude.{
  ℕ, String, ◌≡◌, refl, true, false, ◌||◌, Option, some, List, [], ◌∷◌, ◌++◌, arith, eq_iff,
  eq_refl, int_eq_iff,
}
use run_all_resource.Go.{ok}
use run_all_resource.Data.PortPool.{K8sSettings}
use run_all_resource.Data.Kube.Objects.{ServicePort, Service, ConfigMap, to_int32}
use run_all_resource.Data.Kube.Client.{K8sClient}
use run_all_resource.Data.Kube.Labels.{lookup}
use run_all_resource.Data.Kube.Nginx.{
  entries_or_empty, set_entry, is_port, has_port, nginx_port, without_port, config_map_name,
  patch_config_map, add_port, patch_service_port, drop_port, remove_service_port,
}

pub is_port-nginx_port :
    (external : ℕ) (protocol map_name : String)
    → config_map_name protocol ≡ some map_name
    → is_port external protocol (nginx_port external protocol) ≡ true
unfolding is_port nginx_port config_map_name
is_port-nginx_port external protocol map_name known = ground (
  arith,
  eq_iff protocol "TCP",
  eq_iff protocol "UDP",
  eq_refl protocol,
  eq_refl "TCP",
  eq_refl "UDP",
  (int_eq_iff (to_int32 external) (to_int32 external)).1 refl,
)

pub has_port-append :
    (external : ℕ) (protocol : String) (ps : List ServicePort) (p : ServicePort)
    → has_port external protocol (ps ++ p ∷ [])
      ≡ (has_port external protocol ps || is_port external protocol p)
unfolding has_port
has_port-append external protocol [] p = ground arith
has_port-append external protocol (q ∷ ps) p =
    ground (arith, has_port-append external protocol ps p)

pub without_port-append :
    (external : ℕ) (protocol : String) (ps : List ServicePort) (p : ServicePort)
    → has_port external protocol ps ≡ false
    → is_port external protocol p ≡ true
    → without_port external protocol (ps ++ p ∷ []) ≡ ps
unfolding has_port without_port
without_port-append external protocol [] p absent same = ground arith
without_port-append external protocol (q ∷ ps) p absent same =
    ground (arith, without_port-append external protocol ps p (ground arith) same)

-- The service of ingress-nginx and the ConfigMaps, as the cluster keeps them: a read gives what was
-- written last, and a write changes nothing else.
pub record KeepsNginx {W : Type 0} (client : K8sClient W) (r : K8sSettings) (svc_of : W → Service)
    (map_of : String → W → ConfigMap) : Type 0 where
  pub reads_service :
      (w : W)
      → client.get_service r.ingress_nginx_namespace r.ingress_nginx_lb_service w
        ≡ (ok (svc_of w), w)
  pub service_answers :
      (s : Service) (w : W) → (client.update_service r.ingress_nginx_namespace s w).0 ≡ ok tt
  pub writes_service :
      (s : Service) (w : W) → svc_of (client.update_service r.ingress_nginx_namespace s w).1 ≡ s
  pub service_apart :
      (s : Service) (w : W) (name : String)
      → map_of name (client.update_service r.ingress_nginx_namespace s w).1 ≡ map_of name w
  pub reads_map :
      (name : String) (w : W)
      → client.get_config_map r.ingress_nginx_namespace name w ≡ (ok (map_of name w), w)
  pub named : (name : String) (w : W) → (map_of name w).name ≡ name
  pub map_answers :
      (cm : ConfigMap) (w : W) → (client.update_config_map r.ingress_nginx_namespace cm w).0 ≡ ok tt
  pub writes_map :
      (cm : ConfigMap) (w : W)
      → map_of cm.name (client.update_config_map r.ingress_nginx_namespace cm w).1 ≡ cm
  pub map_apart :
      (cm : ConfigMap) (w : W)
      → svc_of (client.update_config_map r.ingress_nginx_namespace cm w).1 ≡ svc_of w

module _ {W : Type 0} {client : K8sClient W} {r : K8sSettings} {svc_of : W → Service}
    {map_of : String → W → ConfigMap} (keeps : KeepsNginx client r svc_of map_of) where
  abbrev entry_of : String → W → String → Option String
  entry_of name w key = lookup (entries_or_empty (map_of name w).entries) key

  pub patched_map :
      (name key value : String) (w : W)
      → ((patch_config_map client r name key value w).0 ≡ ok tt)
        × (map_of name (patch_config_map client r name key value w).1
            ≡ set_entry (map_of name w) key value)
        × (svc_of (patch_config_map client r name key value w).1 ≡ svc_of w)
  unfolding patch_config_map set_entry
  patched_map name key value w =
      let cm = set_entry (map_of name w) key value in
      ground (
        arith,
        keeps.reads_map name w,
        keeps.map_answers cm w,
        keeps.writes_map cm w,
        keeps.map_apart cm w,
        keeps.named name w,
      )

  pub patched_service :
      (external : ℕ) (protocol : String) (w : W)
      → has_port external protocol (svc_of w).ports ≡ false
      → ((patch_service_port client r external protocol w).0 ≡ ok tt)
        × (svc_of (patch_service_port client r external protocol w).1
            ≡ record (svc_of w) { ports = (svc_of w).ports ++ nginx_port external protocol ∷ [] })
        × ((name : String)
            → map_of name (patch_service_port client r external protocol w).1 ≡ map_of name w)
  unfolding patch_service_port add_port
  patched_service external protocol w absent =
      let s = record (svc_of w) { ports = (svc_of w).ports ++ nginx_port external protocol ∷ [] } in
      (
        ground (arith, keeps.reads_service w, keeps.service_answers s w),
        ground (arith, keeps.reads_service w, keeps.writes_service s w),
        (λ name. ground (arith, keeps.reads_service w, keeps.service_apart s w name)),
      )

  pub removed_service :
      (external : ℕ) (protocol : String) (w : W)
      → has_port external protocol (svc_of w).ports ≡ true
      → (svc_of (remove_service_port client r external protocol w).1
          ≡ record (svc_of w) { ports = without_port external protocol (svc_of w).ports })
        × ((name : String)
            → map_of name (remove_service_port client r external protocol w).1 ≡ map_of name w)
  unfolding remove_service_port drop_port
  removed_service external protocol w present =
      let s = record (svc_of w) { ports = without_port external protocol (svc_of w).ports } in
      (
        ground (arith, keeps.reads_service w, keeps.writes_service s w),
        (λ name. ground (arith, keeps.reads_service w, keeps.service_apart s w name)),
      )
