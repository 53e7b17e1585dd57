-- ===== src/Exec/Inbound/Views.antt =====
-- What the requests ask for, where it is on its way to the command, and what holds of the goroutines on
-- the way in (internal/service/resource.go, internal/data/exec.go).
use mathlib.Core.List.{append-nil, append_assoc}
use run_all_resource.Prelude.{
  ℕ, ◌≤◌, ◌≡◌, refl, Bool, true, false, Option, none, some, List, [], ◌∷◌, ◌++◌, length,
}
use run_all_resource.Biz.Types.{ExecInput, ExecInputType, exec_input_stdin, exec_input_resize}
use run_all_resource.Service.Exec.{ExecRequest, input_of}
use run_all_resource.Data.Exec.{TerminalSize, size_of}
use run_all_resource.Exec.Inbound.{
  capacity, Reader, sending, left, Handler, writing, resizing, stopped, Inbound,
}

abbrev pub inputs_for : Option ExecInput → List ExecInput
inputs_for none = []
inputs_for (some i) = i ∷ []

-- the inputs in the requests, in order
unfoldable pub inputs_of : List ExecRequest → List ExecInput
inputs_of [] = []
inputs_of (r ∷ rs) = inputs_for (input_of r) ++ inputs_of rs

abbrev pub bytes_for : ExecInputType → List ℕ → List ℕ
bytes_for exec_input_stdin bytes = bytes
bytes_for exec_input_resize bytes = []

-- the bytes for the standard input, in order
unfoldable pub stdin_of : List ExecInput → List ℕ
stdin_of [] = []
stdin_of (i ∷ is) = bytes_for i.type i.bytes ++ stdin_of is

abbrev pub sizes_for : ExecInputType → TerminalSize → List TerminalSize
sizes_for exec_input_stdin z = []
sizes_for exec_input_resize z = z ∷ []

-- the sizes of the terminal, in order
unfoldable pub sizes_in : List ExecInput → List TerminalSize
sizes_in [] = []
sizes_in (i ∷ is) = sizes_for i.type (size_of i) ++ sizes_in is

pub stdin_of-append : (xs ys : List ExecInput) → stdin_of (xs ++ ys) ≡ stdin_of xs ++ stdin_of ys
unfolding stdin_of
stdin_of-append [] ys = refl
stdin_of-append (x ∷ xs) ys = simp (stdin_of-append xs ys, append_assoc)

pub sizes_in-append : (xs ys : List ExecInput) → sizes_in (xs ++ ys) ≡ sizes_in xs ++ sizes_in ys
unfolding sizes_in
sizes_in-append [] ys = refl
sizes_in-append (x ∷ xs) ys = simp (sizes_in-append xs ys, append_assoc)

pub inputs_of-append :
    (rs : List ExecRequest) (r : ExecRequest)
    → inputs_of (rs ++ r ∷ []) ≡ inputs_of rs ++ inputs_for (input_of r)
unfolding inputs_of
inputs_of-append [] r = append-nil _
inputs_of-append (x ∷ rs) r = simp (inputs_of-append rs r, append_assoc)

abbrev pub in_reader : Reader → List ExecInput
in_reader (sending i) = i ∷ []
in_reader _ = []

abbrev pub unread : Handler → List ℕ
unread (writing bytes) = bytes
unread (stopped bytes) = bytes
unread _ = []

abbrev pub unsent : Handler → List TerminalSize
unsent (resizing z) = z ∷ []
unsent _ = []

abbrev pub has_left : Reader → Bool
has_left left = true
has_left _ = false

abbrev pub has_stopped : Handler → Bool
has_stopped (stopped _) = true
has_stopped _ = false

-- where the inputs are that have not reached the command: in the channel, and with the reader
abbrev pub waiting : Inbound → List ExecInput
waiting s = s.inputs.items ++ in_reader s.reader

pub record InInv (tty : Bool) (s : Inbound) : Type 0 where
  pub inputs_room : length s.inputs.items ≤ capacity
  pub sizes_room : length s.size_queue.items ≤ capacity
  pub stdin_kept :
      stdin_of (inputs_of s.requests) ≡ s.stdin ++ (unread s.handler ++ stdin_of (waiting s))
  pub sizes_kept :
      sizes_in (inputs_of s.requests)
      ≡ s.sizes ++ (s.size_queue.items ++ (unsent s.handler ++ sizes_in (waiting s)))
  pub inputs_closed : s.inputs.closed ≡ has_left s.reader
  pub queue_closed : s.size_queue.closed ≡ has_stopped s.handler
  pub no_terminal : tty ≡ false → s.sizes ≡ []
