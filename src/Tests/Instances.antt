-- ===== src/Tests/Instances.antt =====
-- The operations on an instance at concrete inputs.
use run_all_resource.Prelude.{ℤ, pos, ◌≡◌, refl, true, arith, int_eq_iff}
use run_all_resource.Go.{Error, sentinel, instance_already_exists, errors_is, Result, ok, err}
use run_all_resource.Biz.Types.{InstanceSpec}
use run_all_resource.Biz.Instance
use run_all_resource.Biz.Instance.{create_instance, instance_not_found, create_json, write_audit}
use run_all_resource.Biz.Instance.Effects.{cluster_decides}
use run_all_resource.Biz.Instance.Retry.{KeepsRows, create_instance_again}
use run_all_resource.Tests.Sample.{
  World, is_stored, sample_instances, empty_world, with_instance, sample, refused, web,
}

abbrev IsStored : ℤ → World → Type 0
IsStored id w = is_stored id w.instances ≡ true

sample-IsStored :
    (answer : Result (Unit {0})) (spec : InstanceSpec) (w : World)
    → (sample_instances.create_instance spec w).0 ≡ ok tt
    → IsStored spec.instance_id (sample_instances.create_instance spec w).1
sample-IsStored answer spec w h =
    ground (arith, (int_eq_iff spec.instance_id spec.instance_id).1 refl)

sample_refuses :
    (spec : InstanceSpec) (w : World)
    → IsStored spec.instance_id w
    → (e : Error) × (sample_instances.create_instance spec w ≡ (err e, w))
      × (errors_is e instance_already_exists ≡ true)
unfolding errors_is
sample_refuses spec w h = (sentinel instance_already_exists, ground arith, refl)

sample_KeepsRows : (answer : Result (Unit {0})) → KeepsRows (sample answer) IsStored
sample_KeepsRows answer = record {
  stored = sample-IsStored answer;
  refused = sample_refuses;
  kept_by_cluster = λ spec id w h. h;
}

create_instance_again_example :
    let uc = sample (err refused) in
    let (r, w) = create_instance uc web empty_world in
    (r ≡ err refused) × (create_instance uc web w ≡ (ok tt, w))
create_instance_again_example =
    create_instance_again (sample (err refused)) (sample_KeepsRows (err refused)) web empty_world
      refused refl refl

cluster_decides_example :
    let uc = sample (err refused) in
    ((Instance.delete_instance uc (pos 7) with_instance).0 ≡ ok tt)
    × ((Instance.stop_instance uc (pos 7) with_instance).0 ≡ err refused)
    × ((Instance.start_instance uc (pos 7) with_instance).0 ≡ ok tt)
    × ((Instance.update_instance uc (pos 7) 1 2 0 "nginx" with_instance).0
        ≡ (uc.k8s_repo.update_instance
            (record web { name = ""; cpu = 1; memory = 2 })
            with_instance).0)
cluster_decides_example = cluster_decides (sample (err refused)) (pos 7) 1 2 0 "nginx" with_instance
