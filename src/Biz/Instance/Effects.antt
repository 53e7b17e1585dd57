-- ===== src/Biz/Instance/Effects.antt =====
-- What the operations on an instance do with what the repositories answer.
use run_all_resource.Prelude.{
  ℕ, String, ℤ, ◌≡◌, refl, Option, none, some, arith, ◌⊎◌, inl, inr, true,
}
use run_all_resource.Go.{Error, plain, instance_already_exists, errors_is, Result, ok, err, M}
use run_all_resource.Go.Decimal.{format_int}
use run_all_resource.Biz.Types.{InstanceSpec, Resource}
use run_all_resource.Biz.Repos.{ResourceUsecase}
use run_all_resource.Biz.Instance.{
  instance_not_found, create_json, write_audit, create_instance, get_resource, or_not_found,
  require_resource, delete_instance, stop_instance, start_instance, update_instance,
}

module _ {W : Type 0} (uc : ResourceUsecase W) where
  -- How an operation ends, by what the lookup of the instance answers; `on_cluster` is the cluster's call.
  abbrev pub Ends :
      Result (Option Resource) × W → (Resource → M W (Unit {0})) → Result (Unit {0}) × W → Type 0
  Ends (err e, w') on_cluster ended = ended ≡ (err e, w')
  Ends (ok none, w') on_cluster ended = ended ≡ (err (plain "instance not found"), w')
  Ends (ok (some r), w') on_cluster ended = ended.0 ≡ (on_cluster r w').0

  answer_cases :
      (q : Result (Option Resource) × W)
      → ((e : Error) × (w' : W) × (q ≡ (err e, w')))
        ⊎ (((w' : W) × (q ≡ (ok none, w'))) ⊎ ((r : Resource) × (w' : W) × (q ≡ (ok (some r), w'))))
  answer_cases (err e, w') = inl (e, w', refl)
  answer_cases (ok none, w') = inr (inl (w', refl))
  answer_cases (ok (some r), w') = inr (inr (r, w', refl))

  -- Deleting, stopping, starting and updating an instance end as the lookup does where it fails, and with
  -- "instance not found" where it finds none, and in both cases do nothing more. On an instance that
  -- is found they end as the cluster's call for it does, made for its owner and, for an update, with
  -- the quantities and the image that were asked for: neither a failing audit record nor, for a
  -- deletion, a failing clean up of the port bindings changes the outcome.
  pub cluster_decides :
      (id : ℤ) (cpu memory gpu : ℕ) (image : String) (w : W)
      → let found = uc.instance_spec.get_resource id w in
        let k = uc.k8s_repo in
        Ends found
          (λ r v.
            k.delete_instance r.user_id
              (format_int id)
              (uc.network_repo.batch_delete_network_bindings id v).1)
          (delete_instance uc id w)
        × Ends found (λ r. k.stop_instance r.user_id (format_int id)) (stop_instance uc id w)
        × Ends found (λ r. k.start_instance r.user_id (format_int id)) (start_instance uc id w)
        × Ends found
            (λ r. k.update_instance (record {
              instance_id = id;
              user_id = r.user_id;
              name = "";
              cpu = cpu;
              memory = memory;
              gpu = gpu;
              image = image;
              config_json = "";
            }))
            (update_instance uc id cpu memory gpu image w)
  unfolding delete_instance stop_instance start_instance update_instance require_resource
      write_audit get_resource or_not_found instance_not_found
  cluster_decides id cpu memory gpu image w =
      elim (answer_cases (uc.instance_spec.get_resource id w)) [
        | inl (e, w', h) ↦ rw h (ground arith, ground arith, ground arith, ground arith)
        | inr (inl (w', h)) ↦ rw h (ground arith, ground arith, ground arith, ground arith)
        | inr (inr (r, w', h)) ↦ rw h (ground arith, ground arith, ground arith, ground arith)
      ]

  -- A creation that succeeds has either found the instance stored already, and then does no more than
  -- the insert, or has created the deployment and written the audit record too.
  pub create_instance_success :
      (spec : InstanceSpec) (w : W)
      → (create_instance uc spec w).0 ≡ ok tt
      → let (inserted, w1) = uc.instance_spec.create_instance spec w in
        let (deployed, w2) = uc.k8s_repo.create_instance spec w1 in
        ((e : Error) × (inserted ≡ err e)
          × (errors_is e instance_already_exists ≡ true)
          × ((create_instance uc spec w).1 ≡ w1))
        ⊎ ((inserted ≡ ok tt)
            × (deployed ≡ ok tt)
            × ((write_audit uc spec.instance_id "CREATE" "Instance created" (create_json spec) w2).0
                ≡ ok tt))
  unfolding create_instance write_audit
  create_instance_success spec w succeeds = ground arith
