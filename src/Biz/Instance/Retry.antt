-- ===== src/Biz/Instance/Retry.antt =====
-- CreateInstance when the event of an instance is delivered again.
use run_all_resource.Prelude.{ℤ, ◌≡◌, refl, true, arith}
use run_all_resource.Go.{Error, instance_already_exists, errors_is, ok, err}
use run_all_resource.Biz.Types.{InstanceSpec}
use run_all_resource.Biz.Repos.{ResourceUsecase}
use run_all_resource.Biz.Instance.{create_instance}

-- What the instance repository promises of a row that it has written: a second insert of the same
-- instance is refused with ErrInstanceAlreadyExists, and nothing else removes the row.
pub record KeepsRows {W : Type 0} (uc : ResourceUsecase W) (IsStored : ℤ → W → Type 0)
    : Type 0 where
  pub stored :
      (spec : InstanceSpec) (w : W)
      → (uc.instance_spec.create_instance spec w).0 ≡ ok tt
      → IsStored spec.instance_id (uc.instance_spec.create_instance spec w).1
  pub refused :
      (spec : InstanceSpec) (w : W)
      → IsStored spec.instance_id w
      → (e : Error) × (uc.instance_spec.create_instance spec w ≡ (err e, w))
        × (errors_is e instance_already_exists ≡ true)
  pub kept_by_cluster :
      (spec : InstanceSpec) (id : ℤ) (w : W)
      → IsStored id w
      → IsStored id (uc.k8s_repo.create_instance spec w).1

module _ {W : Type 0} (uc : ResourceUsecase W) {IsStored : ℤ → W → Type 0}
    (rows : KeepsRows uc IsStored) where
  -- A call for an instance whose row is stored succeeds and does nothing.
  create_stored :
      (spec : InstanceSpec) (w : W)
      → IsStored spec.instance_id w
      → create_instance uc spec w ≡ (ok tt, w)
  unfolding create_instance
  create_stored spec w h =
      let (e, refuses, exists) = rows.refused spec w h in rw refuses (rw exists)

  cluster_refuses :
      (spec : InstanceSpec) (w : W) (e : Error)
      → (uc.instance_spec.create_instance spec w).0 ≡ ok tt
      → (uc.k8s_repo.create_instance spec (uc.instance_spec.create_instance spec w).1).0 ≡ err e
      → create_instance uc spec w
        ≡ (err e, (uc.k8s_repo.create_instance spec (uc.instance_spec.create_instance spec w).1).1)
  unfolding create_instance
  cluster_refuses spec w e inserted refused = ground arith

  -- If the row of an instance was written and the cluster then refused the deployment, the call
  -- fails, and a second call for the same instance, as the redelivery of its event makes it, reports
  -- success and changes nothing: the deployment is not created.
  pub create_instance_again :
      (spec : InstanceSpec) (w : W) (e : Error)
      → (uc.instance_spec.create_instance spec w).0 ≡ ok tt
      → (uc.k8s_repo.create_instance spec (uc.instance_spec.create_instance spec w).1).0 ≡ err e
      → let (r, w') = create_instance uc spec w in
        (r ≡ err e) × (create_instance uc spec w' ≡ (ok tt, w'))
  create_instance_again spec w e inserted refused = rw (cluster_refuses spec w e inserted refused) (
    refl,
    create_stored spec _
        (rows.kept_by_cluster spec spec.instance_id _ (rows.stored spec w inserted)),
  )
