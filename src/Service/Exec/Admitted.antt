-- ===== src/Service/Exec/Admitted.antt =====
-- Which first message starts a session.
use run_all_resource.Prelude.{
  String, is_zero, ◌≡◌, ◌≢◌, ◌↔◌, refl, sym, ap, ◌∙◌, false, Option, none, some, arith, eq_iff,
}
use run_all_resource.Go.{Texts, Result, ok, err}
use run_all_resource.Biz.Types.{Resource}
use run_all_resource.Biz.Repos.{ResourceUsecase}
use run_all_resource.Biz.Instance
use run_all_resource.Service.Exec.{
  ExecInit, ExecRequest, init, input, resize, none_set, init_of, namespace_of, with_namespace,
  find_namespace, admit, is_nil,
}

-- What a first message must be for a session, and what the instance must be that it names.
pub record Admits {W : Type 0} (uc : ResourceUsecase W) (first : Result ExecRequest) (w w' : W)
    (i : ExecInit) (namespace : String) : Type 0 where
  is_init : first ≡ ok (init i)
  instance : is_zero i.instance_id ≡ false
  command : is_nil i.command ≡ false
  named : namespace ≢ ""
  found :
      (r : Resource) × (r.user_id ≡ namespace)
      × (Instance.get_resource uc i.instance_id w ≡ (ok (some r), w'))

init_of-ok :
    (texts : Texts) (first : Result ExecRequest) (i : ExecInit)
    → init_of texts first ≡ ok i
    → (first ≡ ok (init i)) × (is_zero i.instance_id ≡ false) × (is_nil i.command ≡ false)
unfolding init_of
init_of-ok texts (err e) i h = cc
init_of-ok texts (ok (init j)) i h = ground arith
init_of-ok texts (ok (input bytes)) i h = cc
init_of-ok texts (ok (resize rows cols)) i h = cc
init_of-ok texts (ok none_set) i h = cc

init_of-init :
    (texts : Texts) (i : ExecInit)
    → is_zero i.instance_id ≡ false
    → is_nil i.command ≡ false
    → init_of texts (ok (init i)) ≡ ok i
unfolding init_of
init_of-init texts i some_id some_command = rw (some_id, some_command) refl

namespace_of-ok :
    (texts : Texts) (r : Result (Option Resource)) (namespace : String)
    → namespace_of texts r ≡ ok namespace
    → (x : Resource) × (x.user_id ≡ namespace) × (r ≡ ok (some x)) × (namespace ≢ "")
unfolding namespace_of
namespace_of-ok texts (err e) namespace h = cc
namespace_of-ok texts (ok none) namespace h = cc
namespace_of-ok texts (ok (some x)) namespace h =
    (x, ground arith, refl, ground (arith, eq_iff x.user_id ""))

namespace_of-some :
    (texts : Texts) (x : Resource)
    → x.user_id ≢ ""
    → namespace_of texts (ok (some x)) ≡ ok x.user_id
unfolding namespace_of
namespace_of-some texts x named = ground (arith, eq_iff x.user_id "")

module _ {W : Type 0} (texts : Texts) (uc : ResourceUsecase W) where
  find_namespace-ok :
      (i j : ExecInit) (namespace : String) (w w' : W)
      → find_namespace texts uc i w ≡ (ok (j, namespace), w')
      → (i ≡ j)
        × (namespace ≢ "")
        × ((x : Resource) × (x.user_id ≡ namespace)
            × (Instance.get_resource uc i.instance_id w ≡ (ok (some x), w')))
  unfolding find_namespace
  find_namespace-ok i j namespace w w' h =
      go (namespace_of texts (Instance.get_resource uc i.instance_id w).0) refl h
    where
      go :
          (n : Result String)
          → namespace_of texts (Instance.get_resource uc i.instance_id w).0 ≡ n
          → with_namespace texts uc i (Instance.get_resource uc i.instance_id w).1 n
            ≡ (ok (j, namespace), w')
          → (i ≡ j)
            × (namespace ≢ "")
            × ((x : Resource) × (x.user_id ≡ namespace)
                × (Instance.get_resource uc i.instance_id w ≡ (ok (some x), w')))
      go (ok found) e k =
          let (x, user, got, named) =
            namespace_of-ok texts (Instance.get_resource uc i.instance_id w).0 found e in
          (cc, (λ empty. named cc), (x, cc, cc))
      go (err e) _ k = cc

  admit-ok :
      (first : Result ExecRequest) (i : ExecInit) (namespace : String) (w w' : W)
      → admit texts uc first w ≡ (ok (i, namespace), w')
      → Admits uc first w w' i namespace
  unfolding admit
  admit-ok first i namespace w w' h = go (init_of texts first) refl h
    where
      go :
          (r : Result ExecInit)
          → init_of texts first ≡ r
          → elim r [ ok j ↦ find_namespace texts uc j w | err e ↦ (err e, w) ]
            ≡ (ok (i, namespace), w')
          → Admits uc first w w' i namespace
      go (ok j) e k =
          let (same, named, found) = find_namespace-ok j i namespace w w' k in
          let (is_init, instance, command) = init_of-ok texts first i (rw (← same) e) in
          record {
            is_init = is_init;
            instance = instance;
            command = command;
            named = named;
            found = rw (← same) found;
          }
      go (err x) e k = cc

  Admits-admit :
      (first : Result ExecRequest) (i : ExecInit) (namespace : String) (w w' : W)
      → Admits uc first w w' i namespace
      → admit texts uc first w ≡ (ok (i, namespace), w')
  unfolding admit find_namespace
  Admits-admit first i namespace w w' a =
      let (x, user, got) = a.found in
      rw (a.is_init, init_of-init texts i a.instance a.command)
        (ap (λ p. with_namespace texts uc i p.1 (namespace_of texts p.0)) got
          ∙ rw (namespace_of-some texts x (λ e. a.named (sym user ∙ e)), user) refl)

module _ {W : Type 0} (texts : Texts) (uc : ResourceUsecase W) (first : Result ExecRequest)
    (w w' : W) (i : ExecInit) (namespace : String) where
  -- ExecContainer starts a session for the message `i` in a namespace exactly if the first message
  -- was received and is the init message `i`, with an instance and a command, GetResource finds that instance,
  -- and its user is the namespace and not empty.
  pub admit-Admits :
      (admit texts uc first w ≡ (ok (i, namespace), w')) ↔ Admits uc first w w' i namespace
  admit-Admits =
      (admit-ok texts uc first i namespace w w', Admits-admit texts uc first i namespace w w')
