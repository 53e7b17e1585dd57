-- ===== src/Go/Errors.antt =====
-- Go errors: the sentinels that the program compares with, errors.New, fmt.Errorf with %w, the
-- Kratos errors that the service layer makes, and errors that libraries return.
use run_all_resource.Prelude.{
  ℕ, String, append, ◌≡◌, refl, Bool, true, false, Option, none, some, str_eq,
}

pub data Sentinel : Type 0 where
  instance_already_exists deadline_exceeded canceled record_not_found amqp_closed : Sentinel

-- What the program reads of an error that a library made: its text, what `k8serrors.IsNotFound` and
-- `k8serrors.IsAlreadyExists` say of it, and the code of a `pgconn.PgError` if it holds one.
pub record External : Type 0 where
  pub text : String
  pub not_found : Bool
  pub already_exists : Bool
  pub pg_code : Option String

pub data Error : Type 0 where
  sentinel : Sentinel → Error
  plain : String → Error
  wrap : String → Error → Error
  kratos : ℕ → String → String → Error
  external : External → Error

abbrev pub same_sentinel : Sentinel → Sentinel → Bool
same_sentinel instance_already_exists instance_already_exists = true
same_sentinel deadline_exceeded deadline_exceeded = true
same_sentinel canceled canceled = true
same_sentinel record_not_found record_not_found = true
same_sentinel amqp_closed amqp_closed = true
same_sentinel _ _ = false

-- errors.Is follows the chain of wrapped errors.
unfoldable pub errors_is : Error → Sentinel → Bool
errors_is (sentinel s) target = same_sentinel s target
errors_is (plain m) target = false
errors_is (wrap m e) target = errors_is e target
errors_is (kratos c r m) target = false
errors_is (external x) target = false

unfoldable pub is_not_found : Error → Bool
is_not_found (external x) = x.not_found
is_not_found (wrap m e) = is_not_found e
is_not_found (sentinel s) = false
is_not_found (plain m) = false
is_not_found (kratos c r m) = false

unfoldable pub is_already_exists : Error → Bool
is_already_exists (external x) = x.already_exists
is_already_exists (wrap m e) = is_already_exists e
is_already_exists (sentinel s) = false
is_already_exists (plain m) = false
is_already_exists (kratos c r m) = false

abbrev has_code : Option String → String → Bool
has_code none code = false
has_code (some c) code = str_eq c code

-- errors.As to a `*pgconn.PgError`, and the test of its code
unfoldable pub has_pg_code : Error → String → Bool
has_pg_code (external x) code = has_code x.pg_code code
has_pg_code (wrap m e) code = has_pg_code e code
has_pg_code (sentinel s) code = false
has_pg_code (plain m) code = false
has_pg_code (kratos c r m) code = false

-- The texts that libraries give: of a Kratos error, of `gorm.ErrRecordNotFound` and `amqp.ErrClosed`.
pub record Texts : Type 0 where
  pub kratos_text : ℕ → String → String → String
  pub record_not_found_text : String
  pub amqp_closed_text : String

-- `err.Error()`
unfoldable pub error_text : Texts → Error → String
error_text t (sentinel instance_already_exists) = "instance already exists"
error_text t (sentinel deadline_exceeded) = "context deadline exceeded"
error_text t (sentinel canceled) = "context canceled"
error_text t (sentinel record_not_found) = t.record_not_found_text
error_text t (sentinel amqp_closed) = t.amqp_closed_text
error_text t (plain m) = m
error_text t (wrap m e) = append m (append ": " (error_text t e))
error_text t (kratos c r m) = t.kratos_text c r m
error_text t (external x) = x.text

wrap_keeps_sentinel :
    (m : String) (s : Sentinel) → errors_is (wrap m (sentinel s)) s ≡ errors_is (sentinel s) s
unfolding errors_is
wrap_keeps_sentinel m s = refl
