-- ===== src/Mq/Delivery.antt =====
-- processMessage and processMessageBody of internal/server/mq.go. A handler returns an error or nil, or
-- panics; the calls that settle a delivery are those of its acknowledger, `d.Ack` and `d.Reject`.
pub mod Settled
pub mod Redelivery
use run_all_resource.Prelude.{
  ℕ, ℤ, pos, negsuc, Bool, true, false, Option, none, some, List, leb, if◌then◌else◌,
}
use run_all_resource.Go.{Error, Texts, Result, ok, err, M}
use run_all_resource.Mq.Retry.{Table, get_retry_count, is_retryable_error}

pub record Delivery : Type 0 where
  pub headers : Option Table
  pub delivery_tag : ℕ
  pub redelivered : Bool
  pub body : List ℕ

pub data Outcome : Type 0 where
  returned : Option Error → Outcome
  panicked : Outcome

-- `d.Ack(multiple)` and `d.Reject(requeue)` of one delivery
pub record Acknowledger (W : Type 0) : Type 0 where
  pub ack : Bool → M W (Unit {0})
  pub reject : Bool → M W (Unit {0})

-- the outcome of a handler that cannot panic
abbrev pub outcome_of : Result (Unit {0}) → Outcome
outcome_of (ok _) = returned none
outcome_of (err e) = returned (some e)

-- `retryCount >= int(maxRetries)`
abbrev pub reaches : ℤ → ℕ → Bool
reaches (pos n) limit = leb limit n
reaches (negsuc n) limit = false

module _ {W : Type 0} (texts : Texts) where
  -- what follows the call of the handler; the results of the calls are only logged
  settle : M W (Unit {0}) → M W (Unit {0}) → M W (Unit {0}) → Outcome → W → W
  settle ack reject_requeue reject_drop panicked w = (reject_drop w).1
  settle ack reject_requeue reject_drop (returned none) w = (ack w).1
  settle ack reject_requeue reject_drop (returned (some e)) w =
      if is_retryable_error texts (some e) then (reject_requeue w).1 else (reject_drop w).1

  unfoldable pub process_message_body :
      (List ℕ → W → Outcome × W) → List ℕ → M W (Unit {0}) → M W (Unit {0}) → M W (Unit {0}) → W → W
  unfolding settle
  process_message_body consume body ack reject_requeue reject_drop w =
      let (outcome, w') = consume body w in settle ack reject_requeue reject_drop outcome w'

  unfoldable pub process_message :
      ℕ → (List ℕ → W → Outcome × W) → Acknowledger W → Delivery → W → W
  process_message max_retries consume a d w =
      let exceeded = (a.reject false w).1 in
      let handled =
        process_message_body consume d.body (a.ack false) (a.reject true) (a.reject false) w in
      if reaches (get_retry_count d.headers) max_retries then exceeded else handled
