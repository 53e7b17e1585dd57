-- ===== src/Tests/Queue.antt =====
-- The consumer of the queue at concrete inputs.
use run_all_resource.Prelude.{
  ℕ, suc, ◌+◌, ℤ, pos, negsuc, ◌≡◌, ◌↔◌, refl, true, false, Option, none, some, List, [], ◌∷◌,
  if◌then◌else◌,
}
use run_all_resource.Go.{
  plain, sentinel, deadline_exceeded, canceled, errors_is, error_text, Result, ok,
}
use run_all_resource.Go.Text.{contains}
use run_all_resource.Mq.Retry.{
  Table, end, entry, array, table, int64, nil, cons, get_field, get_retry_count, contains_any,
  transient_words, permanent_words, is_retryable_error,
}
use run_all_resource.Mq.Retry.Classes.{SaysAny, is_retryable_error-eq-false}
use run_all_resource.Mq.Delivery.{Delivery, Outcome, returned, reaches, process_message}
use run_all_resource.Mq.Delivery.Settled.{
  requeued, dropped, recorder, beside, settled_once, settlement,
}
use run_all_resource.Mq.Delivery.Redelivery.{deliveries, requeued_forever, KeepsFailing}
use run_all_resource.Tests.Sample.{sample_texts, timed_out}

-- a handler that counts its calls and always fails
abbrev pub failing : List ℕ → ℕ → Outcome × ℕ
failing body n = (returned (some (sentinel deadline_exceeded)), n + 1)

abbrev pub says_ok : ℕ → Result (Unit {0})
says_ok n = ok tt

abbrev death : ℕ → Option Table
death n = some (entry "x-death" (array (cons (table (entry "count" (int64 (pos n)) end)) nil)) end)

abbrev pub delivery_of : Option Table → Delivery
delivery_of headers = record {
  headers = headers;
  delivery_tag = 1;
  redelivered = false;
  body = 10 ∷ [];
}

settled_once_example :
    process_message sample_texts 3 (beside failing) (recorder says_ok) (delivery_of none) (0, [])
    ≡ (if reaches (get_retry_count none) 3
        then (0, dropped ∷ [])
        else (1, settlement sample_texts (returned (some (sentinel deadline_exceeded))) ∷ []))
settled_once_example = settled_once sample_texts failing says_ok 3 (delivery_of none) 0 []

failing-KeepsFailing : (body : List ℕ) → KeepsFailing sample_texts failing says_ok (λ d. d) body
unfolding is_retryable_error errors_is
failing-KeepsFailing body w = (sentinel deadline_exceeded, refl, refl)

-- a message that fails five times under a limit of three
requeued_forever_example :
    (deliveries sample_texts failing says_ok (λ d. d) 5 3 (delivery_of none) (0, [])).1
    ≡ requeued ∷ requeued ∷ requeued ∷ requeued ∷ requeued ∷ []
requeued_forever_example =
    requeued_forever sample_texts failing says_ok (λ d. d) 5 3 (delivery_of none) 0 [] (λ d. refl)
      (λ d. refl) (failing-KeepsFailing (10 ∷ [])) below
  where
    below : reaches (get_retry_count none) 3 ≡ false
    below = unfold get_retry_count in refl

-- a broker that counts
abbrev next_count : ℤ → ℕ
next_count (pos n) = suc n
next_count (negsuc n) = 0

abbrev counting : Delivery → Delivery
counting d = record d { headers = death (next_count (get_retry_count d.headers)) }

counting_counts :
    (d : Delivery) (j : ℕ)
    → get_retry_count d.headers ≡ pos j
    → get_retry_count (counting d).headers ≡ pos (suc j)
counting_counts d j h = rw h (unfold get_retry_count get_field in refl)

is_retryable_error-eq-false_example :
    let e = plain "duplicate key value violates unique constraint" in
    let message = error_text sample_texts e in
    (is_retryable_error sample_texts (some e) ≡ false) ↔ (
      (errors_is e deadline_exceeded ≡ false)
      × (errors_is e canceled ≡ false)
      × (¬ (
          SaysAny message
            ("connection refused" ∷ "connection reset" ∷ "timeout" ∷ "temporary failure" ∷ [])))
      × SaysAny message (
          "duplicate key" ∷ "INVALID_ARGUMENT" ∷ "NOT_FOUND" ∷ "ALREADY_EXISTS" ∷ "constraint"
          ∷ "AlreadyExists" ∷ []))
is_retryable_error-eq-false_example =
    is_retryable_error-eq-false sample_texts
      (plain "duplicate key value violates unique constraint")

retry_tests :
    (is_retryable_error sample_texts (some timed_out) ≡ true)
    × (is_retryable_error sample_texts (some (plain "duplicate key value")) ≡ false)
unfolding is_retryable_error errors_is error_text contains_any transient_words permanent_words
    contains
retry_tests = (refl, refl)
