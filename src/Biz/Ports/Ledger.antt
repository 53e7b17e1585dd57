-- ===== src/Biz/Ports/Ledger.antt =====
-- A ledger beside the world: what was created in the cluster and the database through the
-- repositories, and that the code has not asked to delete since. It wraps any use case, so whatever
-- the repositories answer, the ledger is the record of what the code did.
use run_all_resource.Prelude.{
  ℕ, String, ℤ, int_eq, int_eq_iff, ◌≡◌, refl, Bool, true, false, ◌&&◌, List, [], ◌∷◌, ◌++◌, arith,
  ◌==◌, str_eq, eq_refl, if◌then◌else◌,
}
use run_all_resource.Go.{ok, err, M}
use run_all_resource.Biz.Repos.{InstanceRepo, K8sRepo, NetworkRepo, ResourceUsecase}

pub data Claim : Type 0 where
  service : String → String → Claim
  ingress : String → String → Claim
  entry : String → ℕ → Claim
  binding : ℤ → ℕ → Claim

unfoldable pub claim_eq : Claim → Claim → Bool
claim_eq (service n s) (service m t) = str_eq n m && str_eq s t
claim_eq (ingress n s) (ingress m t) = str_eq n m && str_eq s t
claim_eq (entry p k) (entry q l) = str_eq p q && k == l
claim_eq (binding i k) (binding j l) = int_eq i j && k == l
claim_eq _ _ = false

-- the first entry of the ledger that is `c` is crossed out
unfoldable pub release : Claim → List Claim → List Claim
release c [] = []
release c (d ∷ held) = if claim_eq c d then held else d ∷ release c held

pub claim_eq_refl : (c : Claim) → claim_eq c c ≡ true
unfolding claim_eq
claim_eq_refl (service n s) = ground (arith, eq_refl n, eq_refl s)
claim_eq_refl (ingress n s) = ground (arith, eq_refl n, eq_refl s)
claim_eq_refl (entry p k) = ground (arith, eq_refl p)
claim_eq_refl (binding i k) = ground (arith, (int_eq_iff i i).1 refl)

pub release_head : (c : Claim) (held : List Claim) → release c (c ∷ held) ≡ held
unfolding release
release_head c held = ground (arith, claim_eq_refl c)

abbrev pub Ledgered : Type 0 → Type 0
Ledgered W = W × List Claim

module _ {W : Type 0} where
  abbrev pub keeping : {A : Type 0} → M W A → M (Ledgered W) A
  keeping m (w, held) = let (r, w') = m w in (r, (w', held))

  -- a creation adds its claims where it succeeds
  abbrev pub claiming : {A : Type 0} → (A → List Claim) → M W A → M (Ledgered W) A
  claiming claims m (w, held) =
      let (r, w') = m w in
      elim r [ ok a ↦ (ok a, (w', claims a ++ held)) | err e ↦ (err e, (w', held)) ]

  -- a deletion that was asked for crosses its claim out, whatever the answer
  abbrev pub releasing : {A : Type 0} → Claim → M W A → M (Ledgered W) A
  releasing c m (w, held) = let (r, w') = m w in (r, (w', release c held))

  -- the row of a binding is crossed out where its deletion succeeds
  abbrev pub releasing_ok : {A : Type 0} → Claim → M W A → M (Ledgered W) A
  releasing_ok c m (w, held) =
      let (r, w') = m w in
      elim r [ ok a ↦ (ok a, (w', release c held)) | err e ↦ (err e, (w', held)) ]

  abbrev pub ledgered_k8s : K8sRepo W → K8sRepo (Ledgered W)
  ledgered_k8s k = record {
    create_instance = λ spec. keeping (k.create_instance spec);
    delete_instance = λ ns id. keeping (k.delete_instance ns id);
    stop_instance = λ ns id. keeping (k.stop_instance ns id);
    start_instance = λ ns id. keeping (k.start_instance ns id);
    update_instance = λ spec. keeping (k.update_instance spec);
    create_service_for_tcp_udp = λ ns id port protocol.
        claiming (λ made. entry protocol made.1 ∷ service ns made.0 ∷ [])
          (k.create_service_for_tcp_udp ns id port protocol);
    create_service_for_http = λ ns id port.
        claiming (λ name. service ns name ∷ []) (k.create_service_for_http ns id port);
    delete_service = λ ns name. releasing (service ns name) (k.delete_service ns name);
    delete_tcp_udp_config_map_entry = λ protocol external.
        releasing (entry protocol external) (k.delete_tcp_udp_config_map_entry protocol external);
    create_ingress = λ ns id port name domain.
        claiming (λ made. ingress ns made.0 ∷ []) (k.create_ingress ns id port name domain);
    delete_ingress = λ ns name. releasing (ingress ns name) (k.delete_ingress ns name);
    get_ingress_domain = k.get_ingress_domain;
    get_ingress_nginx_lb_ip = keeping k.get_ingress_nginx_lb_ip;
  }

  abbrev pub ledgered_network : NetworkRepo W → NetworkRepo (Ledgered W)
  ledgered_network n = record {
    create_network_binding =
        λ b. claiming (λ _. binding b.instance_id b.port ∷ []) (n.create_network_binding b);
    update_network_binding = λ b. keeping (n.update_network_binding b);
    delete_network_binding =
        λ id port. releasing_ok (binding id port) (n.delete_network_binding id port);
    get_network_binding = λ id port. keeping (n.get_network_binding id port);
    list_network_bindings = λ id. keeping (n.list_network_bindings id);
    batch_delete_network_bindings = λ id. keeping (n.batch_delete_network_bindings id);
  }

  abbrev pub ledgered_instances : InstanceRepo W → InstanceRepo (Ledgered W)
  ledgered_instances r = record {
    create_instance = λ spec. keeping (r.create_instance spec);
    list_resources = λ filter. keeping (r.list_resources filter);
    get_resource = λ id. keeping (r.get_resource id);
    list_resource_specs = λ ids. keeping (r.list_resource_specs ids);
  }

  abbrev pub ledgered : ResourceUsecase W → ResourceUsecase (Ledgered W)
  ledgered uc = record {
    instance_spec = ledgered_instances uc.instance_spec;
    audit_repo = record { create_audit = λ a. keeping (uc.audit_repo.create_audit a) };
    k8s_repo = ledgered_k8s uc.k8s_repo;
    network_repo = ledgered_network uc.network_repo;
    exec_repo = record { stream_exec = λ opts. keeping (uc.exec_repo.stream_exec opts) };
    clock = λ s. uc.clock s.0;
  }
