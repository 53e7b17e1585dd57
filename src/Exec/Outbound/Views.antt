-- ===== src/Exec/Outbound/Views.antt =====
-- What the client is sent of the streams and of the end of a session, what is on its way, and what holds
-- of the goroutines on the way out (internal/data/exec.go, internal/service/resource.go).
use mathlib.Core.List.{append_assoc}
use run_all_resource.Prelude.{
  pos, ℕ, ◌≤◌, ◌≡◌, refl, ap, Bool, true, false, Option, none, some, List, [], ◌∷◌, ◌++◌, map,
  length,
}
use run_all_resource.Go.Text.{bytes_of}
use run_all_resource.Go.{error_text, Error, Texts}
use run_all_resource.Biz.Types.{ExecOutput}
use run_all_resource.Service.Exec.{
  StreamType, stdout, stderr, ExecResponse, output, error, exit, response_of,
}
use run_all_resource.Exec.Inbound.{capacity}
use run_all_resource.Exec.State.{
  Pump, idle, holding, finished, Ending, never_ran, ran, Main, preparing, exiting, closing, joining,
  returned, Forwarder, responding, reporting_failure, reporting_success, gone, Outbound,
}

abbrev pub bytes_if : StreamType → StreamType → List ℕ → List ℕ
bytes_if stdout stdout bytes = bytes
bytes_if stderr stderr bytes = bytes
bytes_if _ _ bytes = []

-- the bytes of one stream in the responses, in order
unfoldable pub bytes_on : StreamType → List ExecResponse → List ℕ
bytes_on which [] = []
bytes_on which (output type bytes ∷ rs) = bytes_if which type bytes ++ bytes_on which rs
bytes_on which (error _ ∷ rs) = bytes_on which rs
bytes_on which (exit _ ∷ rs) = bytes_on which rs

-- the responses that say how the session ended
unfoldable pub endings_in : List ExecResponse → List ExecResponse
endings_in [] = []
endings_in (output _ _ ∷ rs) = endings_in rs
endings_in (error message ∷ rs) = error message ∷ endings_in rs
endings_in (exit code ∷ rs) = exit code ∷ endings_in rs

pub bytes_on-append :
    (which : StreamType) (xs ys : List ExecResponse)
    → bytes_on which (xs ++ ys) ≡ bytes_on which xs ++ bytes_on which ys
unfolding bytes_on
bytes_on-append which [] ys = refl
bytes_on-append which (output type bytes ∷ xs) ys = simp (bytes_on-append which xs ys, append_assoc)
bytes_on-append which (error _ ∷ xs) ys = bytes_on-append which xs ys
bytes_on-append which (exit _ ∷ xs) ys = bytes_on-append which xs ys

pub endings_in-append :
    (xs ys : List ExecResponse) → endings_in (xs ++ ys) ≡ endings_in xs ++ endings_in ys
unfolding endings_in
endings_in-append [] ys = refl
endings_in-append (output _ _ ∷ xs) ys = endings_in-append xs ys
endings_in-append (error m ∷ xs) ys = ap (◌∷◌ (error m)) (endings_in-append xs ys)
endings_in-append (exit c ∷ xs) ys = ap (◌∷◌ (exit c)) (endings_in-append xs ys)

abbrev pub held : Forwarder → List ExecOutput
held (responding o) = o ∷ []
held (reporting_failure o e) = o ∷ []
held (gone (some (o, e))) = o ∷ []
held _ = []

-- what was sent, and what is on its way
abbrev pub on_way : Outbound → List ExecResponse
on_way s = s.sent ++ map response_of (held s.forwarder ++ s.outputs.items)

abbrev pub in_pump : Pump → List ℕ
in_pump (holding bytes) = bytes
in_pump _ = []

abbrev pub runs : Pump → Bool
runs finished = false
runs _ = true

-- the responses for the end of a session
unfoldable pub messages_of : Texts → Ending → List ExecResponse
messages_of texts (never_ran e) = []
messages_of texts (ran none) = exit (pos 0) ∷ []
messages_of texts (ran (some e)) = error (bytes_of (error_text texts e)) ∷ exit (pos 1) ∷ []

unfoldable pub messages_so_far : Texts → Main → List ExecResponse
unfolding messages_of
messages_so_far texts (exiting (some e)) = error (bytes_of (error_text texts e)) ∷ []
messages_so_far texts (closing ending) = messages_of texts ending
messages_so_far texts (joining ending) = messages_of texts ending
messages_so_far texts (returned ending _) = messages_of texts ending
messages_so_far texts _ = []

abbrev pub has_closed : Main → Bool
has_closed (joining _) = true
has_closed (returned _ _) = true
has_closed _ = false

abbrev pub result_taken : Main → List (Option Error)
result_taken (returned _ result) = result ∷ []
result_taken _ = []

abbrev pub result_given : Forwarder → List (Option Error)
result_given (gone none) = none ∷ []
result_given (gone (some (o, e))) = some e ∷ []
result_given _ = []

abbrev pub succeeds : Forwarder → Bool
succeeds reporting_success = true
succeeds (gone none) = true
succeeds _ = false

pub record OutInv (texts : Texts) (s : Outbound) : Type 0 where
  pub room : length s.outputs.items ≤ capacity
  pub out_kept : s.out.written ≡ bytes_on stdout (on_way s) ++ (in_pump s.out.pump ++ s.out.unread)
  pub err_kept : s.err.written ≡ bytes_on stderr (on_way s) ++ (in_pump s.err.pump ++ s.err.unread)
  pub endings_kept : endings_in (on_way s) ≡ messages_so_far texts s.main
  pub not_started : s.main ≡ preparing → (s.out.pump ≡ idle) × (s.err.pump ≡ idle)
  pub outputs_closed : s.outputs.closed ≡ has_closed s.main
  pub pumps_run :
      (runs s.out.pump ≡ true)
      × (runs s.err.pump ≡ true)
      × (s.out.writer_closed ≡ false)
      × (s.err.writer_closed ≡ false)
  pub errors_open : s.err_chan.closed ≡ false
  pub one_result : result_taken s.main ++ s.err_chan.items ≡ result_given s.forwarder
  pub all_sent : succeeds s.forwarder ≡ true → (s.outputs.items ≡ []) × (s.outputs.closed ≡ true)
