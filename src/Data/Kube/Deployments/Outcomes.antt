-- ===== src/Data/Kube/Deployments/Outcomes.antt =====
-- How the calls on a deployment end, by what the cluster answers.
use run_all_resource.Prelude.{
  ℕ, String, append, ◌≡◌, ◌⊎◌, refl, ap, ◌∙◌, true, false, List, [], ◌∷◌, arith,
}
use run_all_resource.Go.{Error, wrap, is_not_found, is_already_exists, Result, ok, err}
use run_all_resource.Data.Kube.Objects.{Namespace, Service, Scale}
use run_all_resource.Data.Kube.Client.{K8sClient}
use run_all_resource.Data.Kube.Deployments.{
  ensure_namespace, user_namespace, unless_missing, delete_each, after_list, delete_attached,
  delete_instance, scale_deployment, stop_instance, start_instance,
}

module _ {W : Type 0} (client : K8sClient W) where
  delete_each-ok :
      (namespace : String) (services : List Service) (w : W)
      → (delete_each client namespace services w).0 ≡ ok tt
  unfolding delete_each
  delete_each-ok namespace [] w = refl
  delete_each-ok namespace (s ∷ services) w =
      delete_each-ok namespace services (client.delete_service namespace s.name w).1

  after_list-ok :
      (namespace : String) (found : Result (List Service)) (w : W)
      → (after_list client namespace found w).0 ≡ ok tt
  unfolding after_list
  after_list-ok namespace (err e) w = refl
  after_list-ok namespace (ok services) w = delete_each-ok namespace services w

  delete_attached-ok :
      (namespace id : String) (w : W) → (delete_attached client namespace id w).0 ≡ ok tt
  unfolding delete_attached
  delete_attached-ok namespace id w =
      let (found, w') = client.list_services namespace (append "instance-id=" id) w in
      ground (arith, after_list-ok namespace found w')

  -- Deleting an instance fails exactly if the cluster refuses to delete its deployment with another
  -- error than "not found"; neither a list of services that fails nor a service or ingress that cannot
  -- be deleted changes the outcome.
  pub delete_instance-outcome :
      (namespace id : String) (w : W)
      → let deleted = (client.delete_deployment namespace id w).0 in
        (((delete_instance client namespace id w).0 ≡ ok tt)
          × ((deleted ≡ ok tt) ⊎ ((e : Error) × (deleted ≡ err e) × (is_not_found e ≡ true))))
        ⊎ ((e : Error) × (deleted ≡ err e)
            × (is_not_found e ≡ false)
            × ((delete_instance client namespace id w).0
                ≡ err (wrap "failed to delete deployment" e)))
  unfolding delete_instance unless_missing
  delete_instance-outcome namespace id w =
      let (deleted, w') = client.delete_deployment namespace id w in
      ground (arith, delete_attached-ok namespace id w')

  -- Making sure of a namespace either succeeds, where it is there, or is not found and then created by
  -- this caller or meanwhile by another, or fails with the error of the call that failed.
  pub ensure_namespace-outcome :
      (name : String) (w : W)
      → let (found, w') = client.get_namespace name w in
        let made = (client.create_namespace (user_namespace name) w').0 in
        (((ensure_namespace client name w).0 ≡ ok tt)
          × (((ns : Namespace) × (found ≡ ok ns))
              ⊎ ((e : Error) × (found ≡ err e)
                  × (is_not_found e ≡ true)
                  × ((made ≡ ok tt)
                      ⊎ ((e' : Error) × (made ≡ err e') × (is_already_exists e' ≡ true))))))
        ⊎ ((e : Error) × ((ensure_namespace client name w).0 ≡ err e)
            × (((found ≡ err e) × (is_not_found e ≡ false))
                ⊎ ((made ≡ err e) × (is_already_exists e ≡ false))))
  unfolding ensure_namespace
  ensure_namespace-outcome name w = ground arith

-- A cluster that answers the calls for scales: it keeps a scale for each deployment of a namespace.
pub record KeepsScales {W : Type 0} (client : K8sClient W) (scale_of : String → String → W → Scale)
    : Type 0 where
  pub reads :
      (namespace id : String) (w : W)
      → client.get_scale namespace id w ≡ (ok (scale_of namespace id w), w)
  pub answers :
      (namespace id : String) (s : Scale) (w : W) → (client.update_scale namespace id s w).0 ≡ ok tt
  pub writes :
      (namespace id : String) (s : Scale) (w : W)
      → scale_of namespace id (client.update_scale namespace id s w).1 ≡ s

module _ {W : Type 0} (client : K8sClient W) {scale_of : String → String → W → Scale}
    (keeps : KeepsScales client scale_of) where
  scaled :
      (namespace id : String) (replicas : ℕ) (w : W)
      → ((scale_deployment client namespace id replicas w).0 ≡ ok tt)
        × (scale_of namespace id (scale_deployment client namespace id replicas w).1
            ≡ record (scale_of namespace id w) { replicas = replicas })
  unfolding scale_deployment
  scaled namespace id replicas w =
      let s = record (scale_of namespace id w) { replicas = replicas } in
      ground (
        arith,
        keeps.reads namespace id w,
        keeps.answers namespace id s w,
        keeps.writes namespace id s w,
      )

  -- In a cluster that answers, stopping an instance sets the replicas of its deployment to 0 and
  -- starting it sets them to 1, and a stopped instance that is started again has the scale that it had
  -- with 1 replica.
  pub stop_and_start :
      (namespace id : String) (w : W)
      → let stopped = stop_instance client namespace id w in
        let started = start_instance client namespace id stopped.1 in
        (stopped.0 ≡ ok tt)
        × (scale_of namespace id stopped.1 ≡ record (scale_of namespace id w) { replicas = 0 })
        × (started.0 ≡ ok tt)
        × (scale_of namespace id started.1 ≡ record (scale_of namespace id w) { replicas = 1 })
  unfolding stop_instance start_instance
  stop_and_start namespace id w =
      let (down, at_zero) = scaled namespace id 0 w in
      let (up, at_one) = scaled namespace id 1 (scale_deployment client namespace id 0 w).1 in
      (down, at_zero, up, at_one ∙ ap (λ (s : Scale). record s { replicas = 1 }) at_zero)
