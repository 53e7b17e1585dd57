-- ===== src/Service/Lifecycle.antt =====
-- DeleteInstance, StopInstance, StartInstance and UpdateInstance of internal/service/resource.go. They
-- return a reply beside an error.
pub mod Replies
use run_all_resource.Prelude.{
  ℕ, String, ℤ, is_zero, Bool, true, false, Option, none, some, if◌then◌else◌,
}
use run_all_resource.Go.{Error, kratos, Result, ok, err, M}
use run_all_resource.Biz.Repos.{ResourceUsecase}
use run_all_resource.Biz.Instance

pub record InstanceReq : Type 0 where
  pub instance_id : ℤ

pub record UpdateInstanceReq : Type 0 where
  pub instance_id : ℤ
  pub cpu : ℕ
  pub memory : ℕ
  pub gpu : ℕ
  pub image : String

-- a reply with its field `success`, or nil, and an error or nil
abbrev pub Reply : Type 0
Reply = Option Bool × Option Error

abbrev pub refusal : String → Reply
refusal message = (none, some (kratos 400 "INVALID_ARGUMENT" message))

abbrev pub reply_of : Result (Unit {0}) → Reply
reply_of (ok _) = (some true, none)
reply_of (err e) = (some false, some e)

module _ {W : Type 0} where
  -- the checks that the four handlers share, before the operation `run` of the use case
  unfoldable pub checked : ℤ → M W (Unit {0}) → W → Reply × W
  checked id run w =
      let (r, w') = run w in
      if is_zero id then (refusal "instance_id is required", w) else (reply_of r, w')

module _ {W : Type 0} (uc : ResourceUsecase W) where
  unfoldable pub delete_instance : Option InstanceReq → W → Reply × W
  unfolding checked
  delete_instance none w = (refusal "request is required", w)
  delete_instance (some req) w =
      checked req.instance_id (Instance.delete_instance uc req.instance_id) w

  unfoldable pub stop_instance : Option InstanceReq → W → Reply × W
  unfolding checked
  stop_instance none w = (refusal "request is required", w)
  stop_instance (some req) w = checked req.instance_id (Instance.stop_instance uc req.instance_id) w

  unfoldable pub start_instance : Option InstanceReq → W → Reply × W
  unfolding checked
  start_instance none w = (refusal "request is required", w)
  start_instance (some req) w =
      checked req.instance_id (Instance.start_instance uc req.instance_id) w

  unfoldable pub update_instance : Option UpdateInstanceReq → W → Reply × W
  unfolding checked
  update_instance none w = (refusal "request is required", w)
  update_instance (some req) w =
      checked req.instance_id
        (Instance.update_instance uc req.instance_id req.cpu req.memory req.gpu req.image) w
