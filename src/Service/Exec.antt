-- ===== src/Service/Exec.antt =====
-- ExecContainer of internal/service/resource.go: its messages, the checks before a session starts, and
-- what the two goroutines make of a message. The goroutines themselves are in Exec.
pub mod Admitted
use run_all_resource.Prelude.{
  ℕ, String, append, ℤ, pos, is_zero, Bool, Option, none, some, List, [], ◌∷◌, str_eq,
  if◌then◌else◌,
}
use run_all_resource.Go.{Error, Texts, error_text, kratos, Result, ok, err, M, of_result, ◌>>=◌}
use run_all_resource.Biz.Types.{
  ExecInput, exec_input_stdin, exec_input_resize, ExecOutputType, exec_output_data,
  exec_output_error, exec_output_exit, ExecOutput, Resource,
}
use run_all_resource.Biz.Repos.{ResourceUsecase}
use run_all_resource.Biz.Instance

pub record ExecInit : Type 0 where
  pub instance_id : ℤ
  pub command : List String
  pub tty : Bool
  pub container_name : Option String

-- `none_set` is a request whose oneof is not set.
pub data ExecRequest : Type 0 where
  init : ExecInit → ExecRequest
  input : List ℕ → ExecRequest
  resize : (rows cols : ℕ) → ExecRequest
  none_set : ExecRequest

pub data StreamType : Type 0 where
  stdout stderr : StreamType

-- The text of an error is a proto string, which holds bytes.
pub data ExecResponse : Type 0 where
  output : StreamType → List ℕ → ExecResponse
  error : List ℕ → ExecResponse
  exit : ℤ → ExecResponse

-- what the input goroutine sends on the channel for a request
unfoldable pub input_of : ExecRequest → Option ExecInput
input_of (input bytes) =
    some (record { type = exec_input_stdin; bytes = bytes; rows = 0; cols = 0 })
input_of (resize rows cols) =
    some (record { type = exec_input_resize; bytes = []; rows = rows; cols = cols })
input_of (init i) = none
input_of none_set = none

-- the response that the output goroutine sends for an output
unfoldable pub response_of : ExecOutput → ExecResponse
response_of out = respond out.type
  where
    respond : ExecOutputType → ExecResponse
    respond exec_output_data =
        output (if str_eq out.stream "stderr" then stderr else stdout) out.bytes
    respond exec_output_error = error out.bytes
    respond exec_output_exit = exit out.exit_code

abbrev is_nil : List String → Bool
is_nil [] = Bool.true
is_nil (_ ∷ _) = Bool.false

abbrev pub invalid : String → Error
invalid = kratos 400 "INVALID_ARGUMENT"

module _ (texts : Texts) where
  -- the first message, or the error that ends the call
  unfoldable pub init_of : Result ExecRequest → Result ExecInit
  init_of (err e) =
      err
        (kratos 500 "STREAM_ERROR" (append "failed to receive init message: " (error_text texts e)))
  init_of (ok (init i)) =
      if is_zero i.instance_id
      then err (invalid "instance_id is required")
      else if is_nil i.command
      then err (invalid "command is required")
      else ok i
  init_of (ok (input bytes)) = err (invalid "first message must be ExecInit")
  init_of (ok (resize rows cols)) = err (invalid "first message must be ExecInit")
  init_of (ok none_set) = err (invalid "first message must be ExecInit")

  -- the namespace of the instance, from what GetResource returned
  unfoldable pub namespace_of : Result (Option Resource) → Result String
  namespace_of (err e) =
      err (kratos 500 "INTERNAL_ERROR" (append "failed to query instance: " (error_text texts e)))
  namespace_of (ok none) = err (kratos 404 "NOT_FOUND" "instance not found")
  namespace_of (ok (some r)) =
      if str_eq r.user_id ""
      then err (kratos 500 "INTERNAL_ERROR" "instance namespace is empty")
      else ok r.user_id

  module _ {W : Type 0} (uc : ResourceUsecase W) where
    abbrev pub with_namespace : ExecInit → W → Result String → Result (ExecInit × String) × W
    with_namespace i w (ok namespace) = (ok (i, namespace), w)
    with_namespace i w (err e) = (err e, w)

    unfoldable pub find_namespace : ExecInit → M W (ExecInit × String)
    unfolding namespace_of
    find_namespace i w =
        let (r, w') = Instance.get_resource uc i.instance_id w in
        with_namespace i w' (namespace_of r)

    -- everything that comes before the goroutines are started
    unfoldable pub admit : Result ExecRequest → M W (ExecInit × String)
    unfolding init_of find_namespace
    admit first = of_result (init_of first) >>= find_namespace
