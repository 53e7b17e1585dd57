-- ===== src/Exec/Inbound/Delivered.antt =====
-- The moves of the goroutines on the way in (internal/service/resource.go, internal/data/exec.go) and
-- what they change of what is on its way to the command.
use mathlib.Core.List.{append-nil, append_assoc}
use run_all_resource.Prelude.{
  ℕ, ◌≡◌, ◌≢◌, refl, inl, inr, Bool, true, false, Option, none, some, List, [], ◌∷◌, ◌++◌, arith,
  length-append, take-append-drop, take, drop,
}
use run_all_resource.Go.{Result, ok, err}
use run_all_resource.Go.Channel.{moved, panicked, receive-cases}
use run_all_resource.Biz.Types.{ExecInput}
use run_all_resource.Service.Exec.{ExecRequest, input_of}
use run_all_resource.Data.Exec.{size_of}
use run_all_resource.Exec.Inbound.{
  Inbound, recv, push_input, start_handler, take_input, read_stdin, fail_write, push_size,
  next_size, InAction, recv_request, send_input, handle_next, stdin_read, stdin_fails, send_size,
  ask_size, new_inbound, in_act, handler_for, reader_for, written,
}
use run_all_resource.Exec.Inbound.Views.{
  InInv, bytes_for, has_stopped, in_reader, inputs_for, inputs_of-append, sizes_for,
  sizes_in-append, stdin_of-append, unread, unsent, waiting, inputs_of, stdin_of, sizes_in,
}

in_reader-reader_for : (o : Option ExecInput) → in_reader (reader_for o) ≡ inputs_for o
in_reader-reader_for none = refl
in_reader-reader_for (some i) = refl

unread-written : (bs : List ℕ) → (unread (written bs) ≡ bs) × (unsent (written bs) ≡ [])
unread-written [] = (refl, refl)
unread-written (b ∷ bs) = (refl, refl)

unread-handler_for :
    (i : ExecInput)
    → (has_stopped (handler_for i) ≡ false)
      × (unread (handler_for i) ≡ bytes_for i.type i.bytes)
      × (unsent (handler_for i) ≡ sizes_for i.type (size_of i))
unfolding handler_for
unread-handler_for i = ground arith

module _ {tty : Bool} (s t : Inbound) (inv : InInv tty s) where
  recv-Inv : (answer : Result ExecRequest) → recv answer s ≡ moved t → InInv tty t
  unfolding recv
  recv-Inv (err e) h = ground arith
  recv-Inv (ok r) h = record {
    inputs_room = ground arith;
    sizes_room = ground arith;
    stdin_kept = ground (
      arith,
      inputs_of-append s.requests r,
      stdin_of-append (inputs_of s.requests) (inputs_for (input_of r)),
      append-nil s.inputs.items,
      in_reader-reader_for (input_of r),
      stdin_of-append s.inputs.items (inputs_for (input_of r)),
      append_assoc s.stdin (unread s.handler ++ stdin_of s.inputs.items)
          (stdin_of (inputs_for (input_of r))),
      append_assoc (unread s.handler) (stdin_of s.inputs.items)
          (stdin_of (inputs_for (input_of r))),
    );
    sizes_kept = ground (
      arith,
      inputs_of-append s.requests r,
      sizes_in-append (inputs_of s.requests) (inputs_for (input_of r)),
      append-nil s.inputs.items,
      in_reader-reader_for (input_of r),
      sizes_in-append s.inputs.items (inputs_for (input_of r)),
      append_assoc s.sizes (s.size_queue.items ++ (unsent s.handler ++ sizes_in s.inputs.items))
          (sizes_in (inputs_for (input_of r))),
      append_assoc s.size_queue.items (unsent s.handler ++ sizes_in s.inputs.items)
          (sizes_in (inputs_for (input_of r))),
      append_assoc (unsent s.handler) (sizes_in s.inputs.items)
          (sizes_in (inputs_for (input_of r))),
    );
    inputs_closed = ground arith;
    queue_closed = ground arith;
    no_terminal = ground arith;
  }

  push_input-Inv : push_input s ≡ moved t → InInv tty t
  unfolding push_input
  push_input-Inv h = record {
    inputs_room = ground (arith, length-append s.inputs.items (in_reader s.reader));
    sizes_room = ground arith;
    stdin_kept = ground (arith, append-nil (waiting s));
    sizes_kept = ground (arith, append-nil (waiting s));
    inputs_closed = ground arith;
    queue_closed = ground arith;
    no_terminal = ground arith;
  }

  take_input-Inv : take_input s ≡ moved t → InInv tty t
  unfolding take_input stdin_of sizes_in
  take_input-Inv h = elim (receive-cases s.inputs) [
    | inl (i, rest, full, e) ↦ ground (arith, unread-handler_for i)
    | inr none_left ↦ ground arith
  ]

  read_stdin-Inv : (n : ℕ) → read_stdin n s ≡ moved t → InInv tty t
  unfolding read_stdin
  read_stdin-Inv n h =
      let u = unread s.handler in
      let rest = stdin_of (waiting s) in
      ground (
        arith,
        append_assoc s.stdin (take n u) (drop n u ++ rest),
        append_assoc (take n u) (drop n u) rest,
        take-append-drop n u,
        unread-written (drop n u),
      )

  fail_write-Inv : fail_write s ≡ moved t → InInv tty t
  unfolding fail_write
  fail_write-Inv h = ground arith

  push_size-Inv : push_size s ≡ moved t → InInv tty t
  unfolding push_size
  push_size-Inv h = ground (
    arith,
    append_assoc s.size_queue.items (unsent s.handler) (sizes_in (waiting s)),
    length-append s.size_queue.items (unsent s.handler),
  )

  pub start_handler-Inv : start_handler s ≡ moved t → InInv tty t
  unfolding start_handler
  start_handler-Inv h = ground arith

next_size-Inv : (tty : Bool) (s t : Inbound) → InInv tty s → next_size tty s ≡ moved t → InInv tty t
unfolding next_size
next_size-Inv false s t inv h = cc
next_size-Inv true s t inv h = elim (receive-cases s.size_queue) [
  | inl (z, rest, full, e) ↦
      ground
        (arith, append_assoc s.sizes (z ∷ []) (rest ++ (unsent s.handler ++ sizes_in (waiting s))))
  | inr none_left ↦ ground arith
]

-- No move on the way in breaks it.
pub in_act-Inv :
    (tty : Bool) (a : InAction) (s t : Inbound)
    → InInv tty s
    → in_act tty a s ≡ moved t
    → InInv tty t
unfolding in_act
in_act-Inv tty (recv_request answer) s t inv h = recv-Inv s t inv answer h
in_act-Inv tty send_input s t inv h = push_input-Inv s t inv h
in_act-Inv tty handle_next s t inv h = take_input-Inv s t inv h
in_act-Inv tty (stdin_read n) s t inv h = read_stdin-Inv s t inv n h
in_act-Inv tty stdin_fails s t inv h = fail_write-Inv s t inv h
in_act-Inv tty send_size s t inv h = push_size-Inv s t inv h
in_act-Inv tty ask_size s t inv h = next_size-Inv tty s t inv h

pub new_inbound-Inv : (tty : Bool) → InInv tty new_inbound
unfolding inputs_of stdin_of sizes_in
new_inbound-Inv tty = ground arith

-- No channel is closed twice or sent on when it is closed.
pub in_act-ne-panicked :
    (tty : Bool) (a : InAction) (s : Inbound) → InInv tty s → in_act tty a s ≢ panicked
unfolding in_act recv push_input take_input read_stdin fail_write push_size next_size
in_act-ne-panicked tty (recv_request (ok r)) s inv = ground arith
in_act-ne-panicked tty (recv_request (err e)) s inv = ground arith
in_act-ne-panicked tty send_input s inv = ground arith
in_act-ne-panicked tty handle_next s inv = elim (receive-cases s.inputs) [
  | inl some_left ↦ ground arith
  | inr none_left ↦ ground arith
]
in_act-ne-panicked tty (stdin_read n) s inv = ground arith
in_act-ne-panicked tty stdin_fails s inv = ground arith
in_act-ne-panicked tty send_size s inv = ground arith
in_act-ne-panicked false ask_size s inv = λ h. cc
in_act-ne-panicked true ask_size s inv = elim (receive-cases s.size_queue) [
  | inl some_left ↦ ground arith
  | inr none_left ↦ ground arith
]
