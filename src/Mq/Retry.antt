-- ===== src/Mq/Retry.antt =====
-- getRetryCount and isRetryableError of internal/server/mq.go. The headers of a delivery are an
-- `amqp.Table`, a map from names to values of several types; its nil value is `none`.
pub mod Classes
use run_all_resource.Prelude.{
  ℕ, String, ℤ, pos, Bool, true, false, ◌&&◌, ◌||◌, Option, none, some, List, [], ◌∷◌, ◌≡◌, refl,
  str_eq, if◌then◌else◌,
}
use run_all_resource.Go.{
  Error, Texts, sentinel, wrap, plain, kratos, External, external, deadline_exceeded, canceled,
  errors_is, error_text,
}
use run_all_resource.Go.Text.{contains}

mutual
  pub data Field : Type 0 where
    int64 : ℤ → Field
    text : String → Field
    array : Fields → Field
    table : Table → Field
    other : Field

  pub data Fields : Type 0 where
    nil : Fields
    cons : Field → Fields → Fields

  pub data Table : Type 0 where
    end : Table
    entry : String → Field → Table → Table

unfoldable pub get_field : Table → String → Option Field
get_field end key = none
get_field (entry k v rest) key = if str_eq k key then some v else get_field rest key

-- `death["count"].(int64)`
count_of : Option Field → ℤ
count_of (some (int64 n)) = n
count_of _ = pos 0

-- `xDeath[0].(amqp.Table)`
first_death_count : Option Field → ℤ
first_death_count (some (array (cons (table death) rest))) = count_of (get_field death "count")
first_death_count _ = pos 0

unfoldable pub get_retry_count : Option Table → ℤ
unfolding get_field first_death_count count_of
get_retry_count none = pos 0
get_retry_count (some headers) = first_death_count (get_field headers "x-death")

unfoldable pub contains_any : String → List String → Bool
contains_any s [] = false
contains_any s (part ∷ parts) = contains s part || contains_any s parts

unfoldable pub transient_words : List String
transient_words = "connection refused" ∷ "connection reset" ∷ "timeout" ∷ "temporary failure" ∷ []

unfoldable pub permanent_words : List String
permanent_words =
    "duplicate key" ∷ "INVALID_ARGUMENT" ∷ "NOT_FOUND" ∷ "ALREADY_EXISTS" ∷ "constraint" ∷ []

unfoldable pub is_retryable_error : Texts → Option Error → Bool
is_retryable_error texts none = false
is_retryable_error texts (some e) =
    let message = error_text texts e in
    if errors_is e deadline_exceeded || errors_is e canceled
    then true
    else if contains_any message transient_words
    then true
    else if contains_any message permanent_words
    then false
    else if contains message "AlreadyExists"
    then false
    else true

abbrev death_header : Table
death_header = entry "x-death" (array (cons (table (entry "count" (int64 (pos 2)) end)) nil)) end

get_retry_count_tests :
    (get_retry_count (some death_header) ≡ pos 2) × (get_retry_count (some end) ≡ pos 0)
unfolding get_retry_count
get_retry_count_tests = (refl, refl)
