-- ===== src/Mq/Consumer/Serial.antt =====
-- What the loop of the consumer does with the deliveries that it takes.
use run_all_resource.Prelude.{
  ℕ, String, suc, ◌+◌, ◌≡◌, refl, ap, ◌∙◌, Option, List, [], ◌∷◌, ◌++◌, arith, length, map,
  if◌then◌else◌,
}
use run_all_resource.Go.{Texts, Result}
use run_all_resource.Mq.Retry.{get_retry_count}
use run_all_resource.Mq.Delivery.{Delivery, Outcome, reaches}
use run_all_resource.Mq.Delivery.Settled.{
  Settlement, dropped, settlement, recorder, beside, settled_once,
}
use run_all_resource.Mq.Consumer.{serve}
use run_all_resource.Mq.Broker.{Broker, Event, delivery}

module _ {W : Type 0} (texts : Texts) (consume : List ℕ → W → Outcome × W) where
  -- what becomes of one delivery
  abbrev pub settle_one : ℕ → Delivery → W × List Settlement → W × List Settlement
  settle_one limit d (w, calls) =
      let (outcome, w') = consume d.body w in
      if reaches (get_retry_count d.headers) limit
      then (w, dropped ∷ calls)
      else (w', settlement texts outcome ∷ calls)

  -- the deliveries in their order: each sees the state that the one before left
  abbrev pub settle_each : ℕ → List Delivery → W × List Settlement → W × List Settlement
  settle_each limit [] s = s
  settle_each limit (d ∷ ds) s = settle_each limit ds (settle_one limit d s)

  length-settle_one :
      (limit : ℕ) (d : Delivery) (s : W × List Settlement)
      → length (settle_one limit d s).1 ≡ suc (length s.1)
  length-settle_one limit d (w, calls) = ground arith

  length-settle_each :
      (limit : ℕ) (ds : List Delivery) (s : W × List Settlement)
      → length (settle_each limit ds s).1 ≡ length s.1 + length ds
  length-settle_each limit [] s = omega arith
  length-settle_each limit (d ∷ ds) s =
      omega (arith, length-settle_each limit ds (settle_one limit d s), length-settle_one limit d s)

module _ {W : Type 0} (texts : Texts) (consume : List ℕ → W → Outcome × W)
    (broker : Broker (W × List Settlement)) (answer : W → Result (Unit {0})) where
  abbrev pub loop :
      ℕ
      → String
      → List Event
      → W × List Settlement
      → Option (Result (Unit {0})) × (W × List Settlement)
  loop limit tag = serve broker texts (beside consume) (λ d. recorder answer) limit tag

  loop-deliveries :
      (limit : ℕ) (tag : String) (ds : List Delivery) (events : List Event)
      (s : W × List Settlement)
      → loop limit tag (map delivery ds ++ events) s
        ≡ loop limit tag events (settle_each texts consume limit ds s)
  unfolding serve
  loop-deliveries limit tag [] events s = refl
  loop-deliveries limit tag (d ∷ ds) events s =
      ap (loop limit tag (map delivery ds ++ events))
        (settled_once texts consume answer limit d s.0 s.1)
      ∙ loop-deliveries limit tag ds events (settle_one texts consume limit d s)

  -- The loop settles the deliveries one after the other, each once and before it waits for what comes
  -- next: after them it goes on with the other events from the state that they left, in which there is
  -- one settlement more for each delivery.
  pub serve-deliveries :
      (limit : ℕ) (tag : String) (ds : List Delivery) (events : List Event)
      (s : W × List Settlement)
      → (loop limit tag (map delivery ds ++ events) s
          ≡ loop limit tag events (settle_each texts consume limit ds s))
        × (length (settle_each texts consume limit ds s).1 ≡ length s.1 + length ds)
  serve-deliveries limit tag ds events s =
      (loop-deliveries limit tag ds events s, length-settle_each texts consume limit ds s)
