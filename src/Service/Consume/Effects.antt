-- ===== src/Service/Consume/Effects.antt =====
-- Which messages of the queue have an effect.
use mathlib.Core.Path.{subst}
use run_all_resource.Prelude.{
  ℕ, is_zero, pos, ◌≡◌, ◌≢◌, ◌↔◌, ◌⊎◌, inl, inr, refl, true, false, Bool-cases, Option-cases,
  str_eq, some, List, arith, eq_iff, int_eq_iff,
}
use run_all_resource.Go.{Result, ok, err, M, fail}
use run_all_resource.Biz.Types.{InstanceSpec}
use run_all_resource.Biz.Repos.{ResourceUsecase}
use run_all_resource.Biz.Instance.{create_instance}
use run_all_resource.Service.Consume.{
  Event, EventSpec, one_of, ignored_types, spec_of, unknown_event_type, handle_event,
  consume_mq_message,
}

-- A creation event, with the instance and the specification that it needs.
pub record Creates (event : Event) (s : EventSpec) : Type 0 where
  pub created : event.event_type ≡ "INSTANCE_CREATED"
  pub has_spec : event.spec ≡ some s
  pub real : event.instance_id ≢ pos 0

-- The specification of an instance has what the event says of it.
pub record Describes (event : Event) (s : EventSpec) (spec : InstanceSpec) : Type 0 where
  pub instance_id : spec.instance_id ≡ event.instance_id
  pub user_id : spec.user_id ≡ event.user_id
  pub name : spec.name ≡ event.name
  pub cpu : spec.cpu ≡ s.cpus
  pub memory : spec.memory ≡ s.memory_mb
  pub gpu : spec.gpu ≡ s.gpu
  pub image : spec.image ≡ s.image
  pub config_json : spec.config_json ≡ ""

module _ {W : Type 0} (uc : ResourceUsecase W) where
  -- What an event does, as it is decoded: nothing, unless it creates an instance.
  abbrev pub HasEffect : Result Event → W → Result (Unit {0}) × W → Type 0
  HasEffect decoded w ended =
      ((ended.1 ≡ w)
        × (¬ ((event : Event) × (s : EventSpec) × (decoded ≡ ok event) × Creates event s)))
      ⊎ ((event : Event) × (s : EventSpec) × (spec : InstanceSpec) × (decoded ≡ ok event)
          × Creates event s
          × Describes event s spec
          × (ended ≡ create_instance uc spec w))

  no_creation :
      (event : Event)
      → ¬ ((s : EventSpec) × Creates event s)
      → ¬ ((e : Event) × (s : EventSpec) × (ok event ≡ ok e) × Creates e s)
  no_creation event none_such (e, s, same, creates) =
      let back : e ≡ event = cc in none_such (s, subst (λ x. Creates x s) back creates)

  handle_event-effect :
      (event : Event) (w : W)
      → (((handle_event uc event w).1 ≡ w) × (¬ ((s : EventSpec) × Creates event s)))
        ⊎ ((s : EventSpec) × Creates event s
            × (handle_event uc event w ≡ create_instance uc (spec_of event s) w))
  unfolding handle_event
  handle_event-effect event w =
      let created = eq_iff event.event_type "INSTANCE_CREATED" in
      let zero = int_eq_iff event.instance_id (pos 0) in
      elim (Option-cases event.spec) [
        | inl e ↦ inl (ground arith, (λ (s, c). let h : event.spec ≡ some s = c.has_spec in cc))
        | inr (s, e) ↦ elim (Bool-cases (is_zero event.instance_id)) [
          | inl z ↦ inl (ground arith, (λ (t, c). c.real (zero.0 z)))
          | inr nz ↦ elim (Bool-cases (str_eq event.event_type "INSTANCE_CREATED")) [
            | inl c ↦ inr (
              s,
              record { created = created.0 c; has_spec = e; real = λ q. cc (zero.1 q) },
              ground arith,
            )
            | inr other ↦ inl (ground arith, (λ (t, c). let h = created.1 c.created in cc))
          ]
        ]
      ]

  -- A message that decodes to an INSTANCE_CREATED event with an instance and a specification does what
  -- CreateInstance does for the instance, with the owner, the name, the quantities and the image that
  -- the event says. Every other message leaves the world as it is.
  pub consume_mq_message-effect :
      (unmarshal : List ℕ → Result Event) (body : List ℕ) (w : W)
      → HasEffect (unmarshal body) w (consume_mq_message uc unmarshal body w)
  unfolding consume_mq_message
  consume_mq_message-effect unmarshal body w = decoded (unmarshal body)
    where
      decoded :
          (r : Result Event)
          → let run : M W (Unit {0}) = elim r [
            | ok event ↦ handle_event uc event
            | err e ↦ fail e
          ] in
            HasEffect r w (run w)
      decoded (err e) = inl (refl, (λ (event, s, same, c). cc same))
      decoded (ok event) = elim (handle_event-effect event w) [
        | inl (same, other) ↦ inl (same, no_creation event other)
        | inr (s, creates, runs) ↦ inr (
          event,
          s,
          spec_of event s,
          refl,
          creates,
          record {
            instance_id = refl;
            user_id = refl;
            name = refl;
            cpu = refl;
            memory = refl;
            gpu = refl;
            image = refl;
            config_json = refl;
          },
          runs,
        )
      ]

  -- An event of another type than INSTANCE_CREATED changes nothing; with an instance it is accepted
  -- if its type is one of the known ones, and else refused as unknown.
  pub handle_event-other :
      (event : Event) (w : W)
      → event.instance_id ≢ pos 0
      → event.event_type ≢ "INSTANCE_CREATED"
      → ((handle_event uc event w).1 ≡ w)
        × ((one_of event.event_type ignored_types ≡ true) ↔ ((handle_event uc event w).0 ≡ ok tt))
        × ((one_of event.event_type ignored_types ≡ false)
            ↔ ((handle_event uc event w).0 ≡ err unknown_event_type))
  unfolding handle_event
  handle_event-other event w real other =
      ground
        (arith, eq_iff event.event_type "INSTANCE_CREATED", int_eq_iff event.instance_id (pos 0))
