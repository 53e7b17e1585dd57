-- ===== src/Service/Consume.antt =====
-- ConsumeMqMessage of internal/service/resource.go, and the messages of api/mq/v1. Decoding the wire
-- format is `proto.Unmarshal`, a parameter.
pub mod Effects
use run_all_resource.Prelude.{
  ℕ, String, ℤ, is_zero, Bool, false, ◌||◌, Option, none, some, List, [], ◌∷◌, str_eq,
  if◌then◌else◌,
}
use run_all_resource.Go.{Error, kratos, Result, ok, err, M, pure, fail}
use run_all_resource.Biz.Types
use run_all_resource.Biz.Repos.{ResourceUsecase}
use run_all_resource.Biz.Instance.{create_instance}

pub record EventSpec : Type 0 where
  pub cpus : ℕ
  pub memory_mb : ℕ
  pub gpu : ℕ
  pub image : String

pub record Event : Type 0 where
  pub event_type : String
  pub instance_id : ℤ
  pub user_id : String
  pub name : String
  pub spec : Option EventSpec

abbrev pub one_of : String → List String → Bool
one_of s [] = false
one_of s (t ∷ rest) = str_eq s t || one_of s rest

-- The event types whose case in the switch is empty.
unfoldable pub ignored_types : List String
ignored_types =
    "INSTANCE_DELETED" ∷ "INSTANCE_SPEC_CHANGED" ∷ "INSTANCE_IMAGE_REMOVED"
    ∷ "INSTANCE_IMAGE_UPDATED" ∷ "INSTANCE_STARTED" ∷ "INSTANCE_STOPPED" ∷ "INSTANCE_STATUS_CHANGED"
    ∷ "INSTANCE_K8S_SYNC" ∷ "INSTANCE_NETWORK_UPDATED" ∷ []

abbrev pub spec_of : Event → EventSpec → Types.InstanceSpec
spec_of event s = record {
  instance_id = event.instance_id;
  user_id = event.user_id;
  name = event.name;
  cpu = s.cpus;
  memory = s.memory_mb;
  gpu = s.gpu;
  image = s.image;
  config_json = "";
}

unfoldable pub invalid_event : Error
invalid_event = kratos 400 "INVALID_ARGUMENT" "invalid mq event"

unfoldable pub spec_required : Error
spec_required = kratos 400 "INVALID_ARGUMENT" "spec is required for INSTANCE_CREATED event"

unfoldable pub unknown_event_type : Error
unknown_event_type = kratos 400 "UNKNOWN_EVENT_TYPE" "unknown event type"

module _ {W : Type 0} (uc : ResourceUsecase W) where
  on_created : Event → Option EventSpec → M W (Unit {0})
  on_created event none = fail spec_required
  on_created event (some s) = create_instance uc (spec_of event s)

  unfoldable pub handle_event : Event → M W (Unit {0})
  unfolding on_created
  handle_event event =
      if is_zero event.instance_id
      then fail invalid_event
      else if str_eq event.event_type "INSTANCE_CREATED"
      then on_created event event.spec
      else if one_of event.event_type ignored_types
      then pure tt
      else fail unknown_event_type

  unfoldable pub consume_mq_message : (List ℕ → Result Event) → List ℕ → M W (Unit {0})
  consume_mq_message unmarshal body = elim (unmarshal body) [
    | ok event ↦ handle_event event
    | err e ↦ fail e
  ]
