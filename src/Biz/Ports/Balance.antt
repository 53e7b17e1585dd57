-- ===== src/Biz/Ports/Balance.antt =====
-- What opening a port leaves behind, in the ledger.
use run_all_resource.Biz.Ports.Claims.{
  ExposeBalanced, OpenBalanced, Suits, claims_of, persisted_claims, release_parts,
  release_parts-parts,
}
use run_all_resource.Prelude.{
  ℕ, String, ℤ, ◌≡◌, refl, inl, inr, Option, none, some, List, ◌++◌, arith, true, ap, eq_iff,
}
use run_all_resource.Go.{Result, ok, err, ◌>>=◌}
use run_all_resource.Biz.Types.{NetworkBinding}
use run_all_resource.Biz.Repos.{ResourceUsecase}
use run_all_resource.Biz.Instance.{write_audit}
use run_all_resource.Biz.Ports.{
  Exposure, opened_url, expose, store_exposure, delete_exposure, binding_of, after_persist,
  open_new, open_or_reuse, open_port,
}
use run_all_resource.Biz.Ports.Ledger.{Claim, release_head, Ledgered, ledgered}

opened_url-eq-some :
    (existing : Option NetworkBinding) (url : String)
    → opened_url existing ≡ some url
    → (b : NetworkBinding) × (existing ≡ some b) × (b.enabled ≡ true) × (url ≡ b.access_url)
unfolding opened_url
opened_url-eq-some none url p = cc
opened_url-eq-some (some b) url p = (b, refl, ground arith, ground arith)

module _ {W : Type 0} (uc : ResourceUsecase W) where
  expose_balanced :
      (id_str namespace : String) (port : ℕ) (protocol domain : String) (w : W) (held : List Claim)
      → ExposeBalanced namespace protocol held
          (expose (ledgered uc) id_str namespace port protocol domain (w, held))
  unfolding expose
  expose_balanced id_str namespace port protocol domain w held =
      grind
        (arith, release_head, eq_iff protocol "HTTP", eq_iff protocol "TCP", eq_iff protocol "UDP")

  -- The clean up never fails, and crosses out each part that there is.
  pub delete_exposure-release :
      (namespace service_name : String) (i : Option String) (protocol : String) (x : Option ℕ)
      (w : W) (held : List Claim)
      → let (r, s) = delete_exposure (ledgered uc) namespace service_name i protocol x (w, held) in
        (r ≡ ok tt) × (s.1 ≡ release_parts namespace service_name i protocol x held)
  unfolding delete_exposure
  delete_exposure-release namespace service_name none protocol none w held = (refl, refl)
  delete_exposure-release namespace service_name none protocol (some k) w held = (refl, refl)
  delete_exposure-release namespace service_name (some n) protocol none w held = (refl, refl)
  delete_exposure-release namespace service_name (some n) protocol (some k) w held = (refl, refl)

  after_persist_balanced :
      (id : ℤ) (namespace : String) (port : ℕ) (protocol : String) (e : Exposure)
      (r : Result (Unit {0})) (w : W) (held : List Claim)
      → Suits protocol e
      → let b = binding_of id port protocol e in
        OpenBalanced id namespace port protocol (ok none) held (
          after_persist
            (ledgered uc)
            namespace
            b
            r
            (w, persisted_claims id port r ++ claims_of namespace protocol e ++ held))
  unfolding after_persist write_audit
  after_persist_balanced id namespace port protocol e (err x) w held suits =
      let (same, freed) =
        delete_exposure-release namespace e.service_name e.ingress_name protocol e.external_port w
          (claims_of namespace protocol e ++ held) in
      ground (
        arith,
        same,
        freed,
        release_parts-parts namespace e.service_name e.ingress_name protocol e.external_port held,
      )
  after_persist_balanced id namespace port protocol e (ok _) w held suits =
      inr (e, suits, refl, refl)

  open_rest_balanced :
      (id : ℤ) (namespace : String) (port : ℕ) (protocol : String)
      (x : Result Exposure × Ledgered W) (held : List Claim)
      → ExposeBalanced namespace protocol held x
      → OpenBalanced id namespace port protocol
          (ok none)
          held
          (((λ _. x) >>= store_exposure (ledgered uc) id namespace port protocol) x.1)
  unfolding store_exposure
  open_rest_balanced id namespace port protocol (err y, s) held h = h
  open_rest_balanced id namespace port protocol (ok e, (w, held')) held (suits, h) =
      let (r, w') = uc.network_repo.create_network_binding (binding_of id port protocol e) w in
      rw h (ground (arith, after_persist_balanced id namespace port protocol e r w' held suits))

  -- Opening a port that is not open yet.
  open_new_balanced :
      (id : ℤ) (id_str namespace : String) (port : ℕ) (protocol domain : String) (w : W)
      (held : List Claim)
      → OpenBalanced id namespace port protocol
          (ok none)
          held
          (open_new (ledgered uc) id id_str namespace port protocol domain (w, held))
  unfolding open_new
  open_new_balanced id id_str namespace port protocol domain w held =
      open_rest_balanced id namespace port protocol
        (expose (ledgered uc) id_str namespace port protocol domain (w, held)) held
        (expose_balanced id_str namespace port protocol domain w held)

  forget_lookup :
      (id : ℤ) (namespace : String) (port : ℕ) (protocol : String)
      (found : Result (Option NetworkBinding)) (held : List Claim) (x : Result String × Ledgered W)
      → OpenBalanced id namespace port protocol (ok none) held x
      → OpenBalanced id namespace port protocol found held x
  forget_lookup id namespace port protocol found held (err e, s) h = h
  forget_lookup id namespace port protocol found held (ok url, s) (inl (b, e, on, same, kept)) = cc
  forget_lookup id namespace port protocol found held (ok url, s) (inr h) = inr h

  open_url_balanced :
      (id : ℤ) (id_str namespace : String) (port : ℕ) (protocol domain : String)
      (existing : Option NetworkBinding) (open_url : Option String) (w : W) (held : List Claim)
      → opened_url existing ≡ open_url
      → OpenBalanced id namespace port protocol
          (ok existing)
          held
          (open_or_reuse (ledgered uc) id id_str namespace port protocol domain open_url (w, held))
  unfolding open_or_reuse
  open_url_balanced id id_str namespace port protocol domain existing none w held p =
      forget_lookup id namespace port protocol (ok existing) held _
        (open_new_balanced id id_str namespace port protocol domain w held)
  open_url_balanced id id_str namespace port protocol domain existing (some url) w held p =
      let (b, found, on, same) = opened_url-eq-some existing url p in
      inl (b, ap ok found, on, same, refl)

  -- Opening a port: a call that fails leaves the ledger as it was. One that succeeds either found the
  -- port open, returns the stored URL and leaves the ledger as it was, or returns the URL of a new
  -- exposure, whose row and service, and ingress for HTTP or entry for TCP and UDP, are all that it adds.
  pub open_port-balanced :
      (id : ℤ) (id_str namespace : String) (port : ℕ) (protocol domain : String) (w : W)
      (held : List Claim)
      → OpenBalanced id namespace port protocol
          (uc.network_repo.get_network_binding id port w).0
          held
          (open_port (ledgered uc) id id_str namespace port protocol domain (w, held))
  unfolding open_port
  open_port-balanced id id_str namespace port protocol domain w held =
      let (r, w') = uc.network_repo.get_network_binding id port w in after_get r w'
    where
      after_get :
          (r : Result (Option NetworkBinding)) (w' : W)
          → OpenBalanced id namespace port protocol r held (
              ((λ (s : Ledgered W). (r, (w', held))) >>= λ existing.
              open_or_reuse
                (ledgered uc)
                id
                id_str
                namespace
                port
                protocol
                domain
                (opened_url existing))
                (w, held))
      after_get (err e) w' = refl
      after_get (ok existing) w' =
          open_url_balanced id id_str namespace port protocol domain existing (opened_url existing)
            w' held refl
