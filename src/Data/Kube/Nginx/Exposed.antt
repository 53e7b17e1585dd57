-- ===== src/Data/Kube/Nginx/Exposed.antt =====
-- What CreateServiceForTCPUDP leaves behind, whatever the cluster answers.
use run_all_resource.Data.Kube.Nginx.Claims.{EnterBalanced, ExposedBalanced, ledgered_client}
use run_all_resource.Prelude.{
  ℕ, ◌+◌, ◌%◌, ◌^◌, ◌∙◌, Bool-cases, inl, inr, ◌≤◌, String, ◌≡◌, ◌≢◌, refl, Option, none, some,
  List, [], ◌∷◌, arith, ◌==◌,
}
use run_all_resource.Go.{wrap, on_error, Result, ok, err, M, ◌>>◌}
use run_all_resource.Go.Decimal.{itoa}
use run_all_resource.Biz.Instance.{join}
use run_all_resource.Biz.Ports.Ledger.{Claim, service, release_head, Ledgered, claiming}
use run_all_resource.Data.Names.{generate_service_name}
use run_all_resource.Data.PortPool.{K8sSettings, allocate_external_port}
use run_all_resource.Data.Kube.Client.{K8sClient, call}
use run_all_resource.Data.Kube.Services.{service_of}
use run_all_resource.Data.Kube.Nginx.{
  config_map_name, patch_config_map, patch_service_port, delete_tcp_udp_config_map_entry,
  remove_service_port, take_back, after_patch_service, after_patch_config_map, enter_port, allocate,
  after_create_service, create_for, create_service_for_tcp_udp,
}

module _ {W : Type 0} (c : K8sClient W) where
  abbrev KeepsLedger : {A : Type 0} → M (Ledgered W) A → Type 0
  KeepsLedger m = (w : W) (held : List Claim) → (m (w, held)).1.1 ≡ held

  patch_config_map-KeepsLedger :
      (r : K8sSettings) (name key value : String)
      → KeepsLedger (patch_config_map (ledgered_client c) r name key value)
  unfolding patch_config_map
  patch_config_map-KeepsLedger r name key value w held = ground arith

  patch_service_port-KeepsLedger :
      (r : K8sSettings) (external : ℕ) (protocol : String)
      → KeepsLedger (patch_service_port (ledgered_client c) r external protocol)
  unfolding patch_service_port
  patch_service_port-KeepsLedger r external protocol w held = ground arith

  delete_entry-KeepsLedger :
      (r : K8sSettings) (external : ℕ) (protocol : String)
      → KeepsLedger (delete_tcp_udp_config_map_entry (ledgered_client c) r protocol external)
  unfolding delete_tcp_udp_config_map_entry remove_service_port
  delete_entry-KeepsLedger r external protocol w held = ground arith

  after_patch_service_balanced :
      (r : K8sSettings) (namespace name : String) (external : ℕ) (protocol : String)
      (patched : Result (Unit {0})) (w : W) (held : List Claim)
      → external ≢ 0
      → EnterBalanced namespace name external held (
          after_patch_service
            (ledgered_client c)
            r
            namespace
            name
            external
            protocol
            patched
            (w, service namespace name ∷ held))
  unfolding after_patch_service take_back
  after_patch_service_balanced r namespace name external protocol (ok _) w held real =
      (refl, refl, real, refl)
  after_patch_service_balanced r namespace name external protocol (err e) w held real =
      rw (delete_entry-KeepsLedger r external protocol w (service namespace name ∷ held))
        (release_head (service namespace name) held)

  patched_rest :
      (r : K8sSettings) (namespace name : String) (external : ℕ) (protocol : String)
      (x : Result (Unit {0}) × Ledgered W) (held : List Claim)
      → external ≢ 0
      → x.1.1 ≡ service namespace name ∷ held
      → EnterBalanced namespace name external held
          (after_patch_service (ledgered_client c) r namespace name external protocol x.0 x.1)
  patched_rest r namespace name external protocol (patched, (w, now)) held real kept =
      rw kept (after_patch_service_balanced r namespace name external protocol patched w held real)

  after_patch_config_map_balanced :
      (r : K8sSettings) (namespace name : String) (external : ℕ) (protocol : String)
      (patched : Result (Unit {0})) (w : W) (held : List Claim)
      → external ≢ 0
      → EnterBalanced namespace name external held (
          after_patch_config_map
            (ledgered_client c)
            r
            namespace
            name
            external
            protocol
            patched
            (w, service namespace name ∷ held))
  unfolding after_patch_config_map take_back
  after_patch_config_map_balanced r namespace name external protocol (err e) w held real =
      release_head (service namespace name) held
  after_patch_config_map_balanced r namespace name external protocol (ok _) w held real =
      patched_rest r namespace name external protocol
        (patch_service_port (ledgered_client c) r external protocol
          (w, service namespace name ∷ held))
        held real
        (patch_service_port-KeepsLedger r external protocol w (service namespace name ∷ held))

  entered_rest :
      (r : K8sSettings) (namespace name : String) (external : ℕ) (protocol : String)
      (x : Result (Unit {0}) × Ledgered W) (held : List Claim)
      → external ≢ 0
      → x.1.1 ≡ service namespace name ∷ held
      → EnterBalanced namespace name external held
          (after_patch_config_map (ledgered_client c) r namespace name external protocol x.0 x.1)
  entered_rest r namespace name external protocol (patched, (w, now)) held real kept =
      rw kept
        (after_patch_config_map_balanced r namespace name external protocol patched w held real)

  enter_port_balanced :
      (r : K8sSettings) (map_name namespace name : String) (port : ℕ) (protocol : String)
      (external : ℕ) (w : W) (held : List Claim)
      → EnterBalanced namespace name external held (
          enter_port
            (ledgered_client c)
            r
            map_name
            namespace
            name
            port
            protocol
            external
            (w, service namespace name ∷ held))
  unfolding enter_port take_back
  enter_port_balanced r map_name namespace name port protocol external w held =
      let value = join (namespace ∷ "/" ∷ name ∷ ":" ∷ itoa port ∷ []) in
      elim (Bool-cases (external == 0)) [
        | inl none_left ↦ rw none_left (release_head (service namespace name) held)
        | inr real ↦ rw real (
            entered_rest r namespace name external protocol
              (patch_config_map (ledgered_client c) r map_name (itoa external) value
                (w, service namespace name ∷ held))
              held (ground arith)
              (patch_config_map-KeepsLedger r map_name (itoa external) value w
                (service namespace name ∷ held)))
      ]

  allocate-le :
      (r : K8sSettings)
      → (allocate_external_port r).0 ≢ 0
      → (allocate_external_port r).0 ≤ r.tcp_udp_port_range_end
  unfolding allocate_external_port
  allocate-le r real = ground arith

  allocated :
      (r : K8sSettings)
      → (allocate_external_port r).0 ≢ 0
      → ((allocate_external_port r).0 ≡ r.next_available_port)
        × ((allocate_external_port r).1
            ≡ record r { next_available_port = (r.next_available_port + 1) % 2 ^ 32 })
  unfolding allocate_external_port
  allocated r real = (ground arith, ground arith)

  widen :
      (r : K8sSettings) (namespace id : String) (port : ℕ) (x : Result (String × ℕ) × Ledgered W)
      (held : List Claim)
      → EnterBalanced namespace (generate_service_name id port) (allocate_external_port r).0 held x
      → ExposedBalanced r namespace id port held (x.0, (x.1, (allocate_external_port r).1))
  widen r namespace id port (err e, (w, now)) held h = h
  widen r namespace id port (ok (name, external), (w, now)) held (same, next, real, kept) = (
    same,
    rw same kept,
    next ∙ (allocated r real).0,
    (allocated r real).1,
    rw next (omega arith),
    rw next (allocate-le r real),
  )

  allocated_balanced :
      (r : K8sSettings) (namespace id : String) (port : ℕ) (protocol map_name : String) (w : W)
      (held : List Claim)
      → let (external, r') = allocate_external_port r in
        ExposedBalanced r namespace id port held (
          call
            (enter_port
              (ledgered_client c)
              r'
              map_name
              namespace
              (generate_service_name id port)
              port
              protocol
              external)
            ((w, service namespace (generate_service_name id port) ∷ held), r'))
  allocated_balanced r namespace id port protocol map_name w held =
      let (external, r') = allocate_external_port r in
      let name = generate_service_name id port in
      widen r namespace id port
        (enter_port (ledgered_client c) r' map_name namespace name port protocol external
          (w, service namespace name ∷ held))
        held (enter_port_balanced r' map_name namespace name port protocol external w held)

  created_rest :
      (r : K8sSettings) (namespace id : String) (port : ℕ) (protocol map_name : String)
      (made : Result (Unit {0})) (w : W) (held : List Claim)
      → ExposedBalanced r namespace id port held (
          (call (
                on_error (wrap "failed to create service") (
                  claiming
                    (λ (u : Unit {0}).
                      service namespace (service_of namespace id port protocol).name ∷ [])
                    (λ (before : W). (made, w))))
              >> after_create_service (ledgered_client c) map_name namespace id port protocol)
            ((w, held), r))
  unfolding after_create_service allocate service_of
  created_rest r namespace id port protocol map_name (err e) w held = refl
  created_rest r namespace id port protocol map_name (ok _) w held =
      allocated_balanced r namespace id port protocol map_name w held

  -- Whatever the cluster answers, a call that fails leaves no service that it created without having
  -- asked to delete it. One that succeeds leaves the one service of the port, with the external port
  -- at the counter of the pool, which is neither 0 nor above the end of the range, and moves the counter
  -- one on, modulo 2 ^ 32.
  pub create_service_for_tcp_udp-balanced :
      (r : K8sSettings) (namespace id : String) (port : ℕ) (protocol : String) (w : W)
      (held : List Claim)
      → ExposedBalanced r namespace id port held
          (create_service_for_tcp_udp (ledgered_client c) namespace id port protocol ((w, held), r))
  unfolding create_service_for_tcp_udp create_for allocate
  create_service_for_tcp_udp-balanced r namespace id port protocol w held =
      by_map (config_map_name protocol)
    where
      by_map :
          (map_name : Option String)
          → ExposedBalanced r namespace id port held
              (create_for (ledgered_client c) map_name namespace id port protocol ((w, held), r))
      by_map none = refl
      by_map (some map_name) =
          let (made, w') = c.create_service namespace (service_of namespace id port protocol) w in
          created_rest r namespace id port protocol map_name made w' held
