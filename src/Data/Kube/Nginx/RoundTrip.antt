-- ===== src/Data/Kube/Nginx/RoundTrip.antt =====
-- An external port that is entered in ingress-nginx and taken out again.
use run_all_resource.Prelude.{
  ℕ, String, ◌≡◌, refl, ap, ◌∙◌, true, false, Option, none, some, List, [], ◌∷◌, ◌++◌, arith,
  str_eq, if◌then◌else◌, eq_refl,
}
use run_all_resource.Go.{ok}
use run_all_resource.Go.Decimal.{itoa}
use run_all_resource.Data.PortPool.{K8sSettings}
use run_all_resource.Data.Kube.Objects.{Labels, ServicePort, Service, ConfigMap}
use run_all_resource.Data.Kube.Client.{K8sClient}
use run_all_resource.Data.Kube.Labels.{lookup, insert, remove, lookup-insert, lookup-remove}
use run_all_resource.Data.Kube.Nginx.{
  entries_or_empty, set_entry, has_port, nginx_port, without_port, config_map_name,
  patch_config_map, patch_service_port, remove_service_port, drop_entry, after_get_config_map,
  delete_entry_in, delete_tcp_udp_config_map_entry,
}
use run_all_resource.Data.Kube.Nginx.Ports.{
  KeepsNginx, is_port-nginx_port, has_port-append, without_port-append, patched_map,
  patched_service, removed_service,
}

module _ {W : Type 0} {client : K8sClient W} {r : K8sSettings} {svc_of : W → Service}
    {map_of : String → W → ConfigMap} (keeps : KeepsNginx client r svc_of map_of) where
  abbrev pub entry_of : String → W → String → Option String
  entry_of name w key = lookup (entries_or_empty (map_of name w).entries) key

  dropped_entry :
      (name : String) (external : ℕ) (m : Labels) (w : W)
      → let s = drop_entry client r name external (map_of name w) (some m) w in
        (s.0 ≡ ok tt)
        × ((map_of name s.1).entries ≡ some (remove m (itoa external)))
        × (svc_of s.1 ≡ svc_of w)
  unfolding drop_entry
  dropped_entry name external m w =
      let cm = record (map_of name w) { entries = some (remove m (itoa external)) } in
      ground (
        arith,
        keeps.map_answers cm w,
        keeps.writes_map cm w,
        keeps.map_apart cm w,
        keeps.named name w,
      )

  delete_entry_runs :
      (protocol name : String) (external : ℕ) (m : Labels) (w : W)
      → config_map_name protocol ≡ some name
      → (map_of name w).entries ≡ some m
      → delete_tcp_udp_config_map_entry client r protocol external w ≡ (
        ok tt,
        (remove_service_port client r external protocol
            (drop_entry client r name external (map_of name w) (some m) w).1).1,
      )
  unfolding delete_tcp_udp_config_map_entry delete_entry_in after_get_config_map
  delete_entry_runs protocol name external m w known has_entries =
      ground (arith, keeps.reads_map name w, (dropped_entry name external m w).0)

  deleted_entry :
      (protocol name : String) (external : ℕ) (m : Labels) (w : W)
      → config_map_name protocol ≡ some name
      → (map_of name w).entries ≡ some m
      → has_port external protocol (svc_of w).ports ≡ true
      → let d = delete_tcp_udp_config_map_entry client r protocol external w in
        (d.0 ≡ ok tt)
        × ((map_of name d.1).entries ≡ some (remove m (itoa external)))
        × (svc_of d.1
            ≡ record (svc_of w) { ports = without_port external protocol (svc_of w).ports })
  deleted_entry protocol name external m w known has_entries present =
      let w' = (drop_entry client r name external (map_of name w) (some m) w).1 in
      let (done, entries, same) = dropped_entry name external m w in
      let (ports, maps) = removed_service keeps external protocol w' (rw same present) in
      rw (delete_entry_runs protocol name external m w known has_entries) (
        refl,
        ap (λ (cm : ConfigMap). cm.entries) (maps name) ∙ entries,
        ports
            ∙ ap (λ (s : Service). record s { ports = without_port external protocol s.ports })
                same,
      )

  -- In a cluster that keeps what is written to it, a port of TCP or UDP that ingress-nginx does not have
  -- is entered in the ConfigMap of its protocol and added to the service, and the deletion of the entry
  -- takes both out: every call succeeds, the service is then as it was, and each key of the ConfigMap
  -- reads as before but for the key of the port, which is gone.
  pub entry_round_trip :
      (protocol name : String) (external : ℕ) (value key : String) (w : W)
      → config_map_name protocol ≡ some name
      → has_port external protocol (svc_of w).ports ≡ false
      → let mapped = patch_config_map client r name (itoa external) value w in
        let served = patch_service_port client r external protocol mapped.1 in
        let deleted = delete_tcp_udp_config_map_entry client r protocol external served.1 in
        (mapped.0 ≡ ok tt)
        × (served.0 ≡ ok tt)
        × (deleted.0 ≡ ok tt)
        × (entry_of name served.1 (itoa external) ≡ some value)
        × (has_port external protocol (svc_of served.1).ports ≡ true)
        × (svc_of deleted.1 ≡ svc_of w)
        × (entry_of name deleted.1 key
            ≡ (if str_eq (itoa external) key then none else entry_of name w key))
  entry_round_trip protocol name external value key w known absent =
      let w1 = (patch_config_map client r name (itoa external) value w).1 in
      let w2 = (patch_service_port client r external protocol w1).1 in
      let before = entries_or_empty (map_of name w).entries in
      let (ok1, map1, svc1) = patched_map keeps name (itoa external) value w in
      let (ok2, svc2, maps2) = patched_service keeps external protocol w1 (rw svc1 absent) in
      let map2 : map_of name w2 ≡ set_entry (map_of name w) (itoa external) value =
        maps2 name ∙ map1 in
      let entries2 : (map_of name w2).entries ≡ some (insert before (itoa external) value) =
        ap (λ (cm : ConfigMap). cm.entries) map2 ∙ (unfold set_entry in refl) in
      let ports2 : (svc_of w2).ports ≡ (svc_of w).ports ++ nginx_port external protocol ∷ [] =
        ap (λ (s : Service). s.ports) svc2
        ∙ ap (λ (s : Service). s.ports ++ nginx_port external protocol ∷ []) svc1 in
      let same = is_port-nginx_port external protocol name known in
      let present : has_port external protocol (svc_of w2).ports ≡ true = rw ports2 (
        has_port-append external protocol (svc_of w).ports (nginx_port external protocol)
        ∙ ground (arith, same)) in
      let (ok3, entries3, svc3) =
        deleted_entry protocol name external (insert before (itoa external) value) w2 known entries2
          present in
      let added : svc_of w2
          ≡ record (svc_of w) { ports = (svc_of w).ports ++ nginx_port external protocol ∷ [] } =
        svc2
        ∙ ap (λ (s : Service). record s { ports = s.ports ++ nginx_port external protocol ∷ [] })
            svc1 in
      (
        ok1,
        ok2,
        ok3,
        ap (λ (o : Option Labels). lookup (entries_or_empty o) (itoa external)) entries2
            ∙ lookup-insert before (itoa external) value (itoa external)
            ∙ ground (arith, eq_refl (itoa external)),
        present,
        svc3
            ∙ ap (λ (s : Service). record s { ports = without_port external protocol s.ports })
                added
            ∙ ap (λ (ps : List ServicePort). record (svc_of w) { ports = ps })
                (without_port-append external protocol (svc_of w).ports
                  (nginx_port external protocol) absent same),
        ap (λ (o : Option Labels). lookup (entries_or_empty o) key) entries3
            ∙ lookup-remove (insert before (itoa external) value) (itoa external) key
            ∙ ground (arith, lookup-insert before (itoa external) value key),
      )
