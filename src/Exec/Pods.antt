-- ===== src/Exec/Pods.antt =====
-- Where a session runs: the pod that StreamExec of internal/data/exec.go asks for, beside the deployment
-- that CreateInstance of internal/data/k8sInstance.go makes for an instance.
use mathlib.Core.Path.{subst}
use text.Mathlib.TextLemmas.{append_assoc}
use run_all_resource.Prelude.{
  String, append, ◌≡◌, ◌↔◌, refl, sym, ap, ◌∙◌, Bool, true, false, List, [], ◌∷◌, map, arith,
  str_eq, if◌then◌else◌,
}
use run_all_resource.Go.{plain, wrap, of_result, Result, ok, err, pure, on_error, ◌>>=◌, ◌>>◌}
use run_all_resource.Go.Decimal.{format_int}
use run_all_resource.Biz.Types.{InstanceSpec, ExecOptions}
use run_all_resource.Biz.Exec.{options_of, exec_options}
use run_all_resource.Service.Exec.{ExecInit}
use run_all_resource.Data.Names.{get_pod_selector}
use run_all_resource.Data.Exec.{PodExec, PodClient, pod_selector, pod_exec, first_pod, prepare}
use run_all_resource.Data.Kube.Objects.{Labels, Container}
use run_all_resource.Data.Kube.Services.{service_of}
use run_all_resource.Data.Kube.Deployments.{deployment_of}
use run_all_resource.Data.Kube.Deployments.Pods.{selects, service_selects_pods}
use run_all_resource.Exec.Session.{container_of, prepare_exec}

-- the text of a selector that asks for each of the labels
pub selector_text : Labels → String
selector_text [] = ""
selector_text ((k, v) ∷ []) = append k (append "=" v)
selector_text ((k, v) ∷ l ∷ ls) =
    append k (append "=" (append v (append "," (selector_text (l ∷ ls)))))

pod_selector-text : (id : String) → pod_selector id ≡ selector_text (get_pod_selector id)
unfolding pod_selector selector_text get_pod_selector
pod_selector-text id = append_assoc "instance-id" "=" (append id ",app=instance")

-- The pod is the first that was listed, and the executor for it could be made.
record Found {W : Type 0} (client : PodClient W) (opts : ExecOptions) (w : W) (p : PodExec)
    : Type 0 where
  target : p ≡ pod_exec opts p.pod
  listed :
      (more : List String) × (w' : W) × (client.list_pods opts.namespace
          (pod_selector opts.instance_id)
          1
          w
        ≡ (ok (p.pod ∷ more), w'))

module _ {W : Type 0} (client : PodClient W) (opts : ExecOptions) where
  first_pod-ok :
      (pods : List String) (w w' : W) (p : PodExec)
      → first_pod client opts pods w ≡ (ok p, w')
      → (p ≡ pod_exec opts p.pod) × ((more : List String) × (pods ≡ p.pod ∷ more))
  unfolding first_pod pod_exec
  first_pod-ok [] w w' p h = cc
  first_pod-ok (pod ∷ pods) w w' p h = go (client.new_spdy_executor (pod_exec opts pod) w) h
    where
      go :
          (q : Result (Unit {0}) × W)
          → ((λ (v : W). q) >> pure (pod_exec opts pod)) w ≡ (ok p, w')
          → (p ≡ pod_exec opts p.pod) × ((more : List String) × ((pod ∷ pods) ≡ p.pod ∷ more))
      go (ok _, v) k = (ground arith, (pods, ground arith))
      go (err e, v) k = cc

  prepare-ok : (w w' : W) (p : PodExec) → prepare client opts w ≡ (ok p, w') → Found client opts w p
  unfolding prepare
  prepare-ok w w' p h =
      go (client.list_pods opts.namespace (pod_selector opts.instance_id) 1 w) refl h
    where
      go :
          (q : Result (List String) × W)
          → client.list_pods opts.namespace (pod_selector opts.instance_id) 1 w ≡ q
          → (on_error (wrap "failed to list pods") (λ (v : W). q) >>= first_pod client opts) w
            ≡ (ok p, w')
          → Found client opts w p
      go (ok pods, v) e k =
          let (target, (more, same)) = first_pod-ok pods v w' p k in
          record { target = target; listed = (more, v, e ∙ ap (λ l. (ok l, v)) same) }
      go (err x, v) e k = cc

-- without a namespace nothing is prepared
prepare_exec-ok :
    {W : Type 0} (client : PodClient W) (i : ExecInit) (namespace : String) (w w' : W) (p : PodExec)
    → prepare_exec client i namespace w ≡ (ok p, w')
    → prepare client
        (options_of namespace i.instance_id i.command i.tty (container_of i.container_name))
        w
      ≡ (ok p, w')
unfolding prepare_exec exec_options
prepare_exec-ok client i namespace w w' p h = go (str_eq namespace "") h
  where
    opts : ExecOptions
    opts = options_of namespace i.instance_id i.command i.tty (container_of i.container_name)

    go :
        (b : Bool)
        → (of_result (if b then err (plain "namespace is required") else ok opts)
              >>= prepare client)
            w
          ≡ (ok p, w')
        → prepare client opts w ≡ (ok p, w')
    go true k = cc
    go false k = k

-- Where StreamExec goes on to run the command of a session on an instance, and the client names no
-- container, it runs in the namespace of the deployment that CreateInstance makes for the instance and
-- in the one container of that deployment, with the command that was asked for. It has a terminal
-- exactly if the message asks for one, so an absent `tty` gives none. The pod is the first that the
-- cluster lists, with a limit of one, for a label selector; the selector takes the pods of a deployment
-- of CreateInstance exactly if it is a deployment of that instance.
pub exec_runs_in_instance :
    {W : Type 0} (client : PodClient W) (spec other : InstanceSpec) (i : ExecInit) (w w' : W)
    (p : PodExec)
    → i.instance_id ≡ spec.instance_id
    → container_of i.container_name ≡ ""
    → prepare_exec client i spec.user_id w ≡ (ok p, w')
    → (p.namespace ≡ (deployment_of spec).namespace)
      × (map (λ (c : Container). c.name) (deployment_of spec).containers ≡ p.container ∷ [])
      × (p.command ≡ i.command)
      × (p.tty ≡ i.tty)
      × ((more : List String) × (v : W) × (client.list_pods spec.user_id
              (selector_text (get_pod_selector (format_int i.instance_id)))
              1
              w
            ≡ (ok (p.pod ∷ more), v)))
      × ((selects (get_pod_selector (format_int i.instance_id)) (deployment_of other).pod_labels
            ≡ true)
          ↔ (i.instance_id ≡ other.instance_id))
unfolding deployment_of pod_exec service_of
exec_runs_in_instance client spec other i w w' p same_id default h =
    let opts =
      options_of spec.user_id i.instance_id i.command i.tty (container_of i.container_name) in
    let found : Found client opts w p =
      prepare-ok client opts w w' p (prepare_exec-ok client i spec.user_id w w' p h) in
    let (more, v, listed) = found.listed in
    (
      ap (λ q. q.namespace) found.target,
      ap (λ c. c ∷ []) (sym (ap (λ q. q.container) found.target ∙ named)),
      ap (λ q. q.command) found.target,
      ap (λ q. q.tty) found.target,
      (
        more,
        v,
        subst (λ l. client.list_pods spec.user_id l 1 w ≡ (ok (p.pod ∷ more), v))
            (pod_selector-text (format_int i.instance_id)) listed,
      ),
      (service_selects_pods spec.user_id i.instance_id 0 "" other).1,
    )
  where
    named :
        (options_of spec.user_id i.instance_id i.command i.tty
          (container_of i.container_name)).container_name
        ≡ format_int spec.instance_id
    named = rw (default, same_id) refl
