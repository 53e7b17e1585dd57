-- ===== src/Service/Lifecycle/Replies.antt =====
-- What the replies of the four handlers say.
use run_all_resource.Prelude.{ℤ, pos, int_eq_iff, ◌≡◌, ◌≢◌, ◌↔◌, ◌⊎◌, true, none, some, arith}
use run_all_resource.Go.{ok, M}
use run_all_resource.Biz.Repos.{ResourceUsecase}
use run_all_resource.Biz.Instance
use run_all_resource.Service.Lifecycle.{
  InstanceReq, UpdateInstanceReq, Reply, refusal, checked, delete_instance, stop_instance,
  start_instance, update_instance,
}

-- An error comes with no reply or with one that says failure, and no error with success.
abbrev pub IsConsistent : Reply → Type 0
IsConsistent (reply, none) = reply ≡ some true
IsConsistent (reply, some e) = reply ≢ some true

-- A handler either refuses a request without an instance and does nothing, or does what the use case
-- does and answers success exactly if that succeeded.
abbrev pub Serves : {W : Type 0} → ℤ → M W (Unit {0}) → W → Reply × W → Type 0
Serves id run w (reply, w') =
    IsConsistent reply
    × (((id ≡ pos 0) × (w' ≡ w) × (reply ≡ refusal "instance_id is required"))
        ⊎ ((id ≢ pos 0) × (w' ≡ (run w).1) × ((reply.0 ≡ some true) ↔ ((run w).0 ≡ ok tt))))

module _ {W : Type 0} where
  checked-Serves : (id : ℤ) (run : M W (Unit {0})) (w : W) → Serves id run w (checked id run w)
  unfolding checked
  checked-Serves id run w = ground (arith, int_eq_iff id (pos 0))

module _ {W : Type 0} (uc : ResourceUsecase W) where
  -- Each of the four handlers serves its operation of the use case: a request without an instance is
  -- refused with nothing done, any other does what the operation does, the reply says success exactly
  -- if the operation succeeded, and no reply says success beside an error.
  pub handlers-Serves :
      (req : InstanceReq) (update : UpdateInstanceReq) (w : W)
      → Serves req.instance_id
          (Instance.delete_instance uc req.instance_id)
          w
          (delete_instance uc (some req) w)
        × Serves req.instance_id
            (Instance.stop_instance uc req.instance_id)
            w
            (stop_instance uc (some req) w)
        × Serves req.instance_id
            (Instance.start_instance uc req.instance_id)
            w
            (start_instance uc (some req) w)
        × Serves update.instance_id
            (Instance.update_instance uc update.instance_id update.cpu update.memory update.gpu
              update.image)
            w
            (update_instance uc (some update) w)
  unfolding delete_instance stop_instance start_instance update_instance
  handlers-Serves req update w = (
    checked-Serves req.instance_id (Instance.delete_instance uc req.instance_id) w,
    checked-Serves req.instance_id (Instance.stop_instance uc req.instance_id) w,
    checked-Serves req.instance_id (Instance.start_instance uc req.instance_id) w,
    checked-Serves update.instance_id
        (Instance.update_instance uc update.instance_id update.cpu update.memory update.gpu
          update.image)
        w,
  )
