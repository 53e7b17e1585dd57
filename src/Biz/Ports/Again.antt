-- ===== src/Biz/Ports/Again.antt =====
-- Opening a port that is open already.
use mathlib.Core.Path.{subst}
use run_all_resource.Prelude.{
  ℕ, String, ℤ, ◌≡◌, refl, sym, ap, ◌∙◌, true, Option, none, some, arith,
}
use run_all_resource.Go.{Error, Result, ok, err, ◌>>=◌}
use run_all_resource.Biz.Types.{NetworkBinding, AuditInformation}
use run_all_resource.Biz.Repos.{ResourceUsecase}
use run_all_resource.Biz.Instance.{write_audit}
use run_all_resource.Biz.Ports.{
  Exposure, opened_url, delete_exposure, delete_ingress_of, delete_entry_of, binding_of, expose,
  after_persist, store_exposure, open_new, open_or_reuse, open_port,
}

-- What the network repository promises of a binding that it has written: `IsOpen id port url` says that
-- a lookup finds an enabled binding with this URL. A lookup changes nothing, and an audit record leaves
-- the bindings alone.
pub record KeepsBindings {W : Type 0} (uc : ResourceUsecase W)
    (IsOpen : ℤ → ℕ → String → W → Type 0) : Type 0 where
  pub reads : (id : ℤ) (port : ℕ) (w : W) → (uc.network_repo.get_network_binding id port w).1 ≡ w
  pub opens :
      (b : NetworkBinding) (w : W)
      → b.enabled ≡ true
      → (uc.network_repo.create_network_binding b w).0 ≡ ok tt
      → IsOpen b.instance_id b.port b.access_url (uc.network_repo.create_network_binding b w).1
  pub found :
      (id : ℤ) (port : ℕ) (url : String) (w : W)
      → IsOpen id port url w
      → (b : NetworkBinding) × (uc.network_repo.get_network_binding id port w ≡ (ok (some b), w))
        × (b.enabled ≡ true)
        × (b.access_url ≡ url)
  pub kept_by_audit :
      (a : AuditInformation) (id : ℤ) (port : ℕ) (url : String) (w : W)
      → IsOpen id port url w
      → IsOpen id port url (uc.audit_repo.create_audit a w).1

module _ {W : Type 0} (uc : ResourceUsecase W) {IsOpen : ℤ → ℕ → String → W → Type 0}
    (keeps : KeepsBindings uc IsOpen) where
  -- a call that finds the port open
  reopens :
      (id : ℤ) (id_str namespace : String) (port : ℕ) (protocol domain url : String) (w : W)
      (b : NetworkBinding)
      → uc.network_repo.get_network_binding id port w ≡ (ok (some b), w)
      → b.enabled ≡ true
      → b.access_url ≡ url
      → open_port uc id id_str namespace port protocol domain w ≡ (ok url, w)
  unfolding open_port open_or_reuse opened_url
  reopens id id_str namespace port protocol domain url w b found on same =
      ground (arith, found, on, same)

  after_persist-IsOpen :
      (id : ℤ) (namespace : String) (port : ℕ) (protocol url : String) (e : Exposure) (w : W)
      → let b = binding_of id port protocol e in
        (after_persist uc namespace b (ok tt) w).0 ≡ ok url
        → IsOpen id port e.access_url w
        → IsOpen id port url (after_persist uc namespace b (ok tt) w).1
  unfolding after_persist write_audit
  after_persist-IsOpen id namespace port protocol url e w succeeds is_open =
      let same : e.access_url ≡ url = cc in
      let b = binding_of id port protocol e in
      let kept : IsOpen id port e.access_url (after_persist uc namespace b (ok tt) w).1 =
        keeps.kept_by_audit _ id port e.access_url w is_open in
      subst (λ u. IsOpen id port u (after_persist uc namespace b (ok tt) w).1) same kept

  after_persist-fails :
      (namespace : String) (b : NetworkBinding) (x : Error) (w : W)
      → (after_persist uc namespace b (err x) w).0 ≡ err x
  unfolding after_persist delete_exposure delete_ingress_of delete_entry_of
  after_persist-fails namespace b x w = ground arith

  store_exposure-IsOpen :
      (id : ℤ) (namespace : String) (port : ℕ) (protocol url : String) (e : Exposure) (w : W)
      → (store_exposure uc id namespace port protocol e w).0 ≡ ok url
      → IsOpen id port url (store_exposure uc id namespace port protocol e w).1
  unfolding store_exposure
  store_exposure-IsOpen id namespace port protocol url e w succeeds =
      stored (uc.network_repo.create_network_binding (binding_of id port protocol e) w) refl
        succeeds
    where
      stored :
          (x : Result (Unit {0}) × W)
          → uc.network_repo.create_network_binding (binding_of id port protocol e) w ≡ x
          → (after_persist uc namespace (binding_of id port protocol e) x.0 x.1).0 ≡ ok url
          → IsOpen id port url
              (after_persist uc namespace (binding_of id port protocol e) x.0 x.1).1
      stored (err y, w') made done =
          let fails = after_persist-fails namespace (binding_of id port protocol e) y w' in cc
      stored (ok _, w') made done = after_persist-IsOpen id namespace port protocol url e w' done (
          subst (λ (p : Result (Unit {0}) × W). IsOpen id port e.access_url p.1) made
            (keeps.opens (binding_of id port protocol e) w refl
              (ap (λ (p : Result (Unit {0}) × W). p.0) made)))

  open_new-IsOpen :
      (id : ℤ) (id_str namespace : String) (port : ℕ) (protocol domain url : String) (w : W)
      → (open_new uc id id_str namespace port protocol domain w).0 ≡ ok url
      → IsOpen id port url (open_new uc id id_str namespace port protocol domain w).1
  unfolding open_new
  open_new-IsOpen id id_str namespace port protocol domain url w succeeds =
      exposed (expose uc id_str namespace port protocol domain w) succeeds
    where
      exposed :
          (x : Result Exposure × W)
          → (((λ (s : W). x) >>= store_exposure uc id namespace port protocol) w).0 ≡ ok url
          → IsOpen id port url
              (((λ (s : W). x) >>= store_exposure uc id namespace port protocol) w).1
      exposed (err y, w') done = cc
      exposed (ok e, w') done = store_exposure-IsOpen id namespace port protocol url e w' done

  open_new_again :
      (id : ℤ) (id_str namespace : String) (port : ℕ) (protocol domain url : String) (w : W)
      → (open_new uc id id_str namespace port protocol domain w).0 ≡ ok url
      → let w' = (open_new uc id id_str namespace port protocol domain w).1 in
        open_port uc id id_str namespace port protocol domain w' ≡ (ok url, w')
  open_new_again id id_str namespace port protocol domain url w succeeds =
      let w' = (open_new uc id id_str namespace port protocol domain w).1 in
      let (b, found, on, same) =
        keeps.found id port url w'
          (open_new-IsOpen id id_str namespace port protocol domain url w succeeds) in
      reopens id id_str namespace port protocol domain url w' b found on same

  reuse_again :
      (id : ℤ) (id_str namespace : String) (port : ℕ) (protocol domain url : String)
      (existing : Option NetworkBinding) (open_url : Option String) (w : W)
      → uc.network_repo.get_network_binding id port w ≡ (ok existing, w)
      → opened_url existing ≡ open_url
      → (open_or_reuse uc id id_str namespace port protocol domain open_url w).0 ≡ ok url
      → let w' = (open_or_reuse uc id id_str namespace port protocol domain open_url w).1 in
        open_port uc id id_str namespace port protocol domain w' ≡ (ok url, w')
  unfolding open_or_reuse
  reuse_again id id_str namespace port protocol domain url existing none w got opened done =
      open_new_again id id_str namespace port protocol domain url w done
  reuse_again id id_str namespace port protocol domain url existing (some u) w got opened done =
      unfold open_port in ground (arith, got, opened, done)

  -- Opening is idempotent: over a network repository that keeps its bindings, a call that succeeded is
  -- answered with the same URL when it is made again, and the second call changes nothing.
  pub open_port_again :
      (id : ℤ) (id_str namespace : String) (port : ℕ) (protocol domain url : String) (w : W)
      → (open_port uc id id_str namespace port protocol domain w).0 ≡ ok url
      → let w' = (open_port uc id id_str namespace port protocol domain w).1 in
        open_port uc id id_str namespace port protocol domain w' ≡ (ok url, w')
  unfolding open_port
  open_port_again id id_str namespace port protocol domain url w succeeds =
      looked_up (uc.network_repo.get_network_binding id port w) refl succeeds
    where
      rest : Result (Option NetworkBinding) × W → Result String × W
      rest x =
          ((λ (s : W). x) >>= λ existing.
          open_or_reuse uc id id_str namespace port protocol domain (opened_url existing))
            w

      looked_up :
          (x : Result (Option NetworkBinding) × W)
          → uc.network_repo.get_network_binding id port w ≡ x
          → (rest x).0 ≡ ok url
          → open_port uc id id_str namespace port protocol domain (rest x).1 ≡ (ok url, (rest x).1)
      looked_up (err e, w') got done = cc
      looked_up (ok existing, w') got done =
          let unchanged : w ≡ w' =
            sym (keeps.reads id port w)
            ∙ ap (λ (x : Result (Option NetworkBinding) × W). x.1) got in
          reuse_again id id_str namespace port protocol domain url existing (opened_url existing) w'
            (subst (λ (s : W). uc.network_repo.get_network_binding id port s ≡ (ok existing, w'))
              unchanged got)
            refl done
