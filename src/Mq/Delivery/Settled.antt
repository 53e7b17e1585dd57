-- ===== src/Mq/Delivery/Settled.antt =====
-- The calls that settle a delivery.
use run_all_resource.Prelude.{
  ℕ, ◌≡◌, Bool, true, false, none, some, List, ◌∷◌, arith, if◌then◌else◌,
}
use run_all_resource.Go.{Texts, Result, M}
use run_all_resource.Mq.Retry.{get_retry_count, is_retryable_error}
use run_all_resource.Mq.Delivery.{
  Delivery, Outcome, returned, panicked, Acknowledger, reaches, process_message_body,
  process_message,
}

pub data Settlement : Type 0 where
  acked requeued dropped : Settlement

abbrev pub reject_as : Bool → Settlement
reject_as true = requeued
reject_as false = dropped

-- A broker that records the calls, beside a state that the handler may change.
module _ {W : Type 0} where
  abbrev pub recording : (W → Result (Unit {0})) → Settlement → M (W × List Settlement) (Unit {0})
  recording answer call (w, calls) = (answer w, (w, call ∷ calls))

  -- `answer` is what the broker replies to each call
  abbrev pub recorder : (W → Result (Unit {0})) → Acknowledger (W × List Settlement)
  recorder answer = record {
    ack = λ multiple. recording answer acked;
    reject = λ requeue. recording answer (reject_as requeue);
  }

  abbrev pub beside :
      (List ℕ → W → Outcome × W) → List ℕ → W × List Settlement → Outcome × (W × List Settlement)
  beside consume body (w, calls) = let (o, w') = consume body w in (o, (w', calls))

-- What becomes of a message by the outcome of its handler: acknowledged if it returned nil, put back
-- if it returned an error that may pass, and sent to the dead letters if not, or if it panicked.
abbrev pub settlement : Texts → Outcome → Settlement
settlement texts (returned none) = acked
settlement texts (returned (some e)) =
    if is_retryable_error texts (some e) then requeued else dropped
settlement texts panicked = dropped

module _ {W : Type 0} (texts : Texts) (consume : List ℕ → W → Outcome × W)
    (answer : W → Result (Unit {0})) where
  -- Whatever the handler does, panics included, and whatever the broker replies, a delivery is settled
  -- by exactly one call: over the limit it goes to the dead letters and the handler is not called, and
  -- under it the outcome of the handler decides.
  pub settled_once :
      (max_retries : ℕ) (d : Delivery) (w : W) (calls : List Settlement)
      → process_message texts max_retries (beside consume) (recorder answer) d (w, calls) ≡ (
          if reaches (get_retry_count d.headers) max_retries
          then (w, dropped ∷ calls)
          else (let (o, w') = consume d.body w in (w', settlement texts o ∷ calls)))
  unfolding process_message process_message_body
  settled_once max_retries d w calls = ground arith
