-- ===== src/Biz/Ports/Close.antt =====
-- What closing a port leaves behind, in the ledger.
use run_all_resource.Prelude.{
  ℕ, String, ℤ, ◌≡◌, refl, sym, ap, ◌∙◌, Option, none, some, List, ◌∷◌, ◌++◌, arith,
}
use run_all_resource.Go.{Result, ok, err, ◌>>=◌}
use run_all_resource.Biz.Types.{NetworkBinding}
use run_all_resource.Biz.Repos.{ResourceUsecase}
use run_all_resource.Biz.Instance.{write_audit}
use run_all_resource.Biz.Ports.{close_found, close_port}
use run_all_resource.Biz.Ports.Ledger.{Claim, binding, release, release_head, Ledgered, ledgered}
use run_all_resource.Biz.Ports.Balance.{delete_exposure-release}
use run_all_resource.Biz.Ports.Claims.{
  binding_claims, release_parts, release_parts-parts, release_parts-row,
}

abbrev pub release_binding : String → NetworkBinding → List Claim → List Claim
release_binding namespace b held =
    release_parts namespace b.service_name b.ingress_name b.protocol b.external_port held

-- What a call of closePort has left, by what the lookup of the port gave and how the call ended.
abbrev pub CloseBalanced :
    {W : Type 0}
    → ℤ
    → String
    → ℕ
    → Result (Option NetworkBinding)
    → List Claim
    → Result (Unit {0}) × Ledgered W
    → Type 0
CloseBalanced id namespace port (err e) held (r, s) = (r ≡ err e) × (s.1 ≡ held)
CloseBalanced id namespace port (ok none) held (r, s) = (r ≡ ok tt) × (s.1 ≡ held)
CloseBalanced id namespace port (ok (some b)) held (err e, s) =
    s.1 ≡ release_binding namespace b held
CloseBalanced id namespace port (ok (some b)) held (ok _, s) =
    s.1 ≡ release (binding id port) (release_binding namespace b held)

module _ {W : Type 0} (uc : ResourceUsecase W) where
  close_some_balanced :
      (id : ℤ) (namespace : String) (port : ℕ) (b : NetworkBinding) (w : W) (held : List Claim)
      → CloseBalanced id namespace port
          (ok (some b))
          held
          (close_found (ledgered uc) id namespace port (some b) (w, held))
  unfolding close_found write_audit
  close_some_balanced id namespace port b w held =
      let (same, freed) =
        delete_exposure-release uc namespace b.service_name b.ingress_name b.protocol
          b.external_port w held in
      ground (arith, same, freed)

  -- Closing a port: where no row is found nothing is done; else every part of the binding is asked to
  -- be deleted, whatever the cluster answers, and the row is the last to go.
  pub close_port-balanced :
      (id : ℤ) (namespace : String) (port : ℕ) (w : W) (held : List Claim)
      → CloseBalanced id namespace port
          (uc.network_repo.get_network_binding id port w).0
          held
          (close_port (ledgered uc) id namespace port (w, held))
  unfolding close_port close_found
  close_port-balanced id namespace port w held =
      let (r, w') = uc.network_repo.get_network_binding id port w in after_get r w'
    where
      after_get :
          (r : Result (Option NetworkBinding)) (w' : W)
          → CloseBalanced id namespace port r held (
              ((λ (s : Ledgered W). (r, (w', held)))
                  >>= close_found (ledgered uc) id namespace port)
                (w, held))
      after_get (err e) w' = (refl, refl)
      after_get (ok none) w' = (refl, refl)
      after_get (ok (some b)) w' = close_some_balanced id namespace port b w' held

  closed_ok :
      (id : ℤ) (namespace : String) (port : ℕ) (b : NetworkBinding) (held : List Claim)
      (x : Result (Unit {0}) × Ledgered W)
      → CloseBalanced id namespace port (ok (some b)) held x
      → x.0 ≡ ok tt
      → x.1.1 ≡ release (binding id port) (release_binding namespace b held)
  closed_ok id namespace port b held (err e, s) h closed = cc
  closed_ok id namespace port b held (ok _, s) h closed = h

  -- Closing undoes opening: where the row of the port is found and the ledger holds that row and the
  -- parts of its binding on top of `held`, a call that succeeds leaves exactly `held`.
  pub close_port-undoes :
      (id : ℤ) (namespace : String) (port : ℕ) (b : NetworkBinding) (w : W) (held : List Claim)
      → (uc.network_repo.get_network_binding id port w).0 ≡ ok (some b)
      → let opened = binding id port ∷ binding_claims namespace b ++ held in
        (close_port (ledgered uc) id namespace port (w, opened)).0 ≡ ok tt
        → (close_port (ledgered uc) id namespace port (w, opened)).1.1 ≡ held
  close_port-undoes id namespace port b w held found closed =
      let opened = binding id port ∷ binding_claims namespace b ++ held in
      let balanced : CloseBalanced id namespace port (ok (some b)) opened
          (close_port (ledgered uc) id namespace port (w, opened)) =
        rw (sym found) (close_port-balanced id namespace port w opened) in
      closed_ok id namespace port b opened _ balanced closed
      ∙ ap (release (binding id port)) (
          release_parts-row namespace b.service_name b.ingress_name b.protocol b.external_port id
            port (binding_claims namespace b ++ held)
          ∙ ap (λ l. binding id port ∷ l)
              (release_parts-parts namespace b.service_name b.ingress_name b.protocol
                b.external_port held))
      ∙ release_head (binding id port) held
