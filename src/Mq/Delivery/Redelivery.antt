-- ===== src/Mq/Delivery/Redelivery.antt =====
-- What the retry limit does to a message whose handler keeps failing with an error that may pass. How a
-- rejected message comes back is the broker's doing, a parameter.
use run_all_resource.Prelude.{
  ℕ, zero, suc, ◌+◌, pos, ◌≡◌, refl, ap, Bool, true, false, some, List, ◌∷◌, arith,
}
use run_all_resource.Go.{Error, Texts, Result}
use run_all_resource.Mq.Retry.{get_retry_count, is_retryable_error}
use run_all_resource.Mq.Delivery.{Delivery, Outcome, returned, reaches, process_message}
use run_all_resource.Mq.Delivery.Settled.{
  Settlement, requeued, dropped, recorder, beside, settled_once,
}

abbrev is_requeued : List Settlement → Bool
is_requeued (requeued ∷ calls) = true
is_requeued _ = false

abbrev pub again : ℕ → List Settlement → List Settlement
again zero calls = calls
again (suc n) calls = again n (requeued ∷ calls)

abbrev go_on :
    {W : Type 0}
    → (W × List Settlement → W × List Settlement)
    → W × List Settlement
    → W × List Settlement
go_on rest s = elim (is_requeued s.1) [ true ↦ rest s | false ↦ s ]

module _ {W : Type 0} (texts : Texts) (consume : List ℕ → W → Outcome × W)
    (answer : W → Result (Unit {0})) (redeliver : Delivery → Delivery) where
  -- At most `n` deliveries of one message: it comes back as long as it is put back in the queue.
  pub deliveries : ℕ → ℕ → Delivery → W × List Settlement → W × List Settlement
  deliveries zero limit d s = s
  deliveries (suc n) limit d s =
      go_on (deliveries n limit (redeliver d))
        (process_message texts limit (beside consume) (recorder answer) d s)

  -- The handler fails on this body, in every state, with an error that may pass.
  abbrev pub KeepsFailing : List ℕ → Type 0
  KeepsFailing body =
      (w : W)
      → (e : Error) × ((consume body w).0 ≡ returned (some e))
        × (is_retryable_error texts (some e) ≡ true)

  put_back :
      (limit : ℕ) (d : Delivery) (w : W) (calls : List Settlement)
      → KeepsFailing d.body
      → reaches (get_retry_count d.headers) limit ≡ false
      → process_message texts limit (beside consume) (recorder answer) d (w, calls)
        ≡ ((consume d.body w).1, requeued ∷ calls)
  put_back limit d w calls fails below =
      let (e, failed, passes) = fails w in
      ground (arith, settled_once texts consume answer limit d w calls, failed, passes)

  deliveries_step :
      (n limit : ℕ) (d : Delivery) (w : W) (calls : List Settlement)
      → KeepsFailing d.body
      → reaches (get_retry_count d.headers) limit ≡ false
      → deliveries (suc n) limit d (w, calls)
        ≡ deliveries n limit (redeliver d) ((consume d.body w).1, requeued ∷ calls)
  unfolding deliveries
  deliveries_step n limit d w calls fails below =
      ap (go_on (deliveries n limit (redeliver d))) (put_back limit d w calls fails below)

  -- A broker that puts a rejected message back as it was, as RabbitMQ does (it adds "x-death" only when
  -- a message is dead lettered), redelivers a message that keeps failing without end: after any
  -- number of deliveries it has been put back that often, and has not been sent to the dead letters.
  pub requeued_forever :
      (n limit : ℕ) (d : Delivery) (w : W) (calls : List Settlement)
      → ((d' : Delivery) → (redeliver d').headers ≡ d'.headers)
      → ((d' : Delivery) → (redeliver d').body ≡ d'.body)
      → KeepsFailing d.body
      → reaches (get_retry_count d.headers) limit ≡ false
      → (deliveries n limit d (w, calls)).1 ≡ again n calls
  requeued_forever zero limit d w calls same_headers same_body fails below =
      unfold deliveries in refl
  requeued_forever (suc n) limit d w calls same_headers same_body fails below =
      rw (deliveries_step n limit d w calls fails below) (
        requeued_forever n limit (redeliver d) (consume d.body w).1 (requeued ∷ calls) same_headers
          same_body (rw same_body fails) (rw same_headers below))

  -- If the broker did count the rejections of a message in its headers, a message that keeps failing
  -- would be put back until the count reaches the limit, and would then go to the dead letters.
  pub dropped_at_limit :
      (n k : ℕ) (d : Delivery) (w : W) (calls : List Settlement)
      → ((d' : Delivery) (j : ℕ)
          → get_retry_count d'.headers ≡ pos j
          → get_retry_count (redeliver d').headers ≡ pos (suc j))
      → ((d' : Delivery) → (redeliver d').body ≡ d'.body)
      → KeepsFailing d.body
      → get_retry_count d.headers ≡ pos k
      → (deliveries (suc n) (n + k) d (w, calls)).1 ≡ dropped ∷ again n calls
  dropped_at_limit zero k d w calls counts same_body fails at =
      unfold deliveries in ground (arith, settled_once texts consume answer (0 + k) d w calls)
  dropped_at_limit (suc n) k d w calls counts same_body fails at =
      rw (deliveries_step (suc n) (suc n + k) d w calls fails (ground arith)) (
        rw (shift n k) (
          dropped_at_limit n (suc k) (redeliver d) (consume d.body w).1 (requeued ∷ calls) counts
            same_body (rw same_body fails) (counts d k at)))
    where
      shift : (a b : ℕ) → suc a + b ≡ a + suc b
      shift a b = omega arith
