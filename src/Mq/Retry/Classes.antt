-- ===== src/Mq/Retry/Classes.antt =====
-- Which errors isRetryableError of internal/server/mq.go retries, by what they are and what their texts
-- say.
use run_all_resource.Prelude.{
  ◌≡◌, ◌↔◌, ◌⊎◌, inl, inr, true, false, some, arith, Bool-cases, String, List, [], ◌∷◌,
}
use run_all_resource.Go.{Error, Texts, deadline_exceeded, canceled, errors_is, error_text}
use run_all_resource.Go.Text.{contains}
use run_all_resource.Go.Text.Within.{Within, contains_iff}
use run_all_resource.Mq.Retry.{contains_any, transient_words, permanent_words, is_retryable_error}

-- One of the words stands within the text.
abbrev pub SaysAny : String → List String → Type 0
SaysAny message [] = ⊥
SaysAny message (word ∷ words) = Within word message ⊎ SaysAny message words

contains_any-SaysAny :
    (message : String) (words : List String)
    → (contains_any message words ≡ true) ↔ SaysAny message words
unfolding contains_any
contains_any-SaysAny message [] = ((λ h. cc), (λ h. absurd h))
contains_any-SaysAny message (word ∷ words) =
    let here = contains_iff message word in
    let later = contains_any-SaysAny message words in
    (
      (λ h. elim (Bool-cases (contains message word)) [
        | inl said ↦ inl (here.0 said)
        | inr unsaid ↦ inr (later.0 (ground arith))
      ]),
      (λ says. elim says [
        | inl w ↦ let said = here.1 w in ground arith
        | inr ws ↦ let said = later.1 ws in ground arith
      ]),
    )

-- An error is dropped exactly when it is no context error, its text speaks of no refused or reset
-- connection, no timeout and no temporary failure, and it has one of the words of a permanent failure.
pub is_retryable_error-eq-false :
    (texts : Texts) (e : Error)
    → let message = error_text texts e in
      (is_retryable_error texts (some e) ≡ false) ↔ (
        (errors_is e deadline_exceeded ≡ false)
        × (errors_is e canceled ≡ false)
        × (¬ (
            SaysAny message
              ("connection refused" ∷ "connection reset" ∷ "timeout" ∷ "temporary failure" ∷ [])))
        × SaysAny message (
            "duplicate key" ∷ "INVALID_ARGUMENT" ∷ "NOT_FOUND" ∷ "ALREADY_EXISTS" ∷ "constraint"
            ∷ "AlreadyExists" ∷ []))
unfolding is_retryable_error transient_words permanent_words contains_any
is_retryable_error-eq-false texts e =
    let message = error_text texts e in
    let transient = contains_any-SaysAny message transient_words in
    let permanent = contains_any-SaysAny message (
      "duplicate key" ∷ "INVALID_ARGUMENT" ∷ "NOT_FOUND" ∷ "ALREADY_EXISTS" ∷ "constraint"
      ∷ "AlreadyExists" ∷ []) in
    (
      (λ h. (
        ground arith,
        ground arith,
        (λ s. let t = transient.1 s in ground arith),
        permanent.0 (ground arith),
      )),
      (λ (d, c, quiet, says). let p = permanent.1 says in ground arith),
    )
