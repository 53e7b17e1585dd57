-- ===== src/Data/Kube/Nginx/Claims.antt =====
-- A client with a ledger of the services that were created, and what a port of ingress-nginx must leave in it.
use run_all_resource.Prelude.{ℕ, ◌+◌, ◌%◌, ◌^◌, ◌≤◌, String, ◌≡◌, ◌≢◌, List, [], ◌∷◌}
use run_all_resource.Go.{Result, ok, err}
use run_all_resource.Biz.Ports.Ledger.{Claim, service, Ledgered, keeping, claiming, releasing}
use run_all_resource.Data.Names.{generate_service_name}
use run_all_resource.Data.PortPool.{K8sSettings}
use run_all_resource.Data.Kube.Client.{K8sClient, Repo}

-- Any client, with the services in a ledger that were created and not asked to be deleted since.
abbrev pub ledgered_client : {W : Type 0} → K8sClient W → K8sClient (Ledgered W)
ledgered_client c = record {
  get_namespace = λ name. keeping (c.get_namespace name);
  create_namespace = λ ns. keeping (c.create_namespace ns);
  create_deployment = λ ns d. keeping (c.create_deployment ns d);
  get_deployment = λ ns name. keeping (c.get_deployment ns name);
  update_deployment = λ ns d. keeping (c.update_deployment ns d);
  delete_deployment = λ ns name. keeping (c.delete_deployment ns name);
  get_scale = λ ns name. keeping (c.get_scale ns name);
  update_scale = λ ns name s. keeping (c.update_scale ns name s);
  create_service =
      λ ns s. claiming (λ (made : Unit {0}). service ns s.name ∷ []) (c.create_service ns s);
  get_service = λ ns name. keeping (c.get_service ns name);
  update_service = λ ns s. keeping (c.update_service ns s);
  delete_service = λ ns name. releasing (service ns name) (c.delete_service ns name);
  list_services = λ ns labels. keeping (c.list_services ns labels);
  create_ingress = λ ns i. keeping (c.create_ingress ns i);
  delete_ingress = λ ns name. keeping (c.delete_ingress ns name);
  delete_ingresses = λ ns labels. keeping (c.delete_ingresses ns labels);
  get_config_map = λ ns name. keeping (c.get_config_map ns name);
  update_config_map = λ ns cm. keeping (c.update_config_map ns cm);
}

-- What a call has left: nothing if it failed; the one service if it succeeded, with the external port at
-- the counter of the pool, a uint32 that moves one on.
abbrev pub ExposedBalanced :
    {W : Type 0}
    → K8sSettings
    → String
    → String
    → ℕ
    → List Claim
    → Result (String × ℕ) × Repo (Ledgered W)
    → Type 0
ExposedBalanced r namespace id port held (err e, ((w, now), r')) = now ≡ held
ExposedBalanced r namespace id port held (ok (name, external), ((w, now), r')) =
    (name ≡ generate_service_name id port)
    × (now ≡ service namespace name ∷ held)
    × (external ≡ r.next_available_port)
    × (r' ≡ record r { next_available_port = (r.next_available_port + 1) % 2 ^ 32 })
    × (1 ≤ external)
    × (external ≤ r.tcp_udp_port_range_end)

abbrev pub EnterBalanced :
    {W : Type 0} → String → String → ℕ → List Claim → Result (String × ℕ) × Ledgered W → Type 0
EnterBalanced namespace name external held (err e, (w, now)) = now ≡ held
EnterBalanced namespace name external held (ok (n, x), (w, now)) =
    (n ≡ name) × (x ≡ external) × (external ≢ 0) × (now ≡ service namespace name ∷ held)
