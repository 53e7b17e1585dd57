-- ===== src/Exec/Outbound/Streams.antt =====
-- The moves of the goroutines on the way out (internal/data/exec.go, internal/service/resource.go) and
-- the two streams.
use mathlib.Core.List.{append-nil, append_assoc}
use run_all_resource.Prelude.{
  ℕ, ◌≡◌, refl, inl, inr, true, false, Option, List, arith, Bool-cases, take-append-drop,
}
use run_all_resource.Go.{Error, Texts, Result, ok, err}
use run_all_resource.Go.Channel.{moved, panicked, receive-cases}
use run_all_resource.Biz.Types.{ExecOutput}
use run_all_resource.Service.Exec.{StreamType, stdout, stderr}
use run_all_resource.Data.Exec.{PodExec}
use run_all_resource.Exec.Outbound.{
  begin, write_pipe, buffer_size, read_pipe, push_output, end_stream, end_session, take_output,
  send_response, report_result, join, OutAction, command_writes, pump_reads, pump_sends,
  stream_ends, main_sends, next_output, response_sent, forwarder_reports, main_joins, out_act,
}
use run_all_resource.Exec.State.{holding, Outbound, new_outbound, pipe_of}
use run_all_resource.Exec.Outbound.Views.{
  OutInv, in_pump, on_way, bytes_on, endings_in, messages_of, messages_so_far,
}
use run_all_resource.Exec.Outbound.Moves.{
  Ended, Pushed, Responded, data-Enqueued, end_session-Ended, ending-Enqueued, message,
  push_output-Pushed, send_response-Responded, sends,
}

module _ (texts : Texts) (s t : Outbound) (inv : OutInv texts s) where
  pub take_output-Inv : take_output s ≡ moved t → OutInv texts t
  unfolding take_output
  take_output-Inv h = elim (receive-cases s.outputs) [
    | inl (o, rest, full, e) ↦ ground arith
    | inr none_left ↦ ground arith
  ]

  pub end_stream-Inv : (result : Option Error) → end_stream result s ≡ moved t → OutInv texts t
  unfolding end_stream messages_so_far
  end_stream-Inv result h = ground arith

  pub join-Inv : join s ≡ moved t → OutInv texts t
  unfolding join messages_so_far
  join-Inv h = elim (receive-cases s.err_chan) [
    | inl (r, rest, full, e) ↦ ground arith
    | inr none_left ↦ ground arith
  ]

  pub report_result-Inv : report_result s ≡ moved t → OutInv texts t
  unfolding report_result
  report_result-Inv h = ground arith

  pub begin-Inv : (prepared : Result PodExec) → begin prepared s ≡ moved t → OutInv texts t
  unfolding begin messages_so_far messages_of
  begin-Inv (ok e) h = ground arith
  begin-Inv (err e) h = ground arith

  pub write_pipe-Inv :
      (which : StreamType) (bytes : List ℕ) → write_pipe which bytes s ≡ moved t → OutInv texts t
  unfolding write_pipe
  write_pipe-Inv stdout bytes h = ground (
    arith,
    append_assoc (bytes_on stdout (on_way s)) (in_pump s.out.pump) bytes,
    append-nil (in_pump s.out.pump),
  )
  write_pipe-Inv stderr bytes h = ground (
    arith,
    append_assoc (bytes_on stderr (on_way s)) (in_pump s.err.pump) bytes,
    append-nil (in_pump s.err.pump),
  )

  pub read_pipe-Inv : (which : StreamType) → read_pipe which s ≡ moved t → OutInv texts t
  unfolding read_pipe
  read_pipe-Inv stdout h = ground (arith, take-append-drop buffer_size s.out.unread)
  read_pipe-Inv stderr h = ground (arith, take-append-drop buffer_size s.err.unread)

  pub Responded-Inv : Responded s t → OutInv texts t
  Responded-Inv r = ground arith

  pub send_response-Inv :
      (answer : Option Error) → send_response answer s ≡ moved t → OutInv texts t
  send_response-Inv answer h = Responded-Inv (send_response-Responded s t answer h)

  pub Pushed-Inv : (which : StreamType) (bytes : List ℕ) → Pushed which bytes s t → OutInv texts t
  Pushed-Inv stdout bytes p = ground (
    arith,
    data-Enqueued stdout bytes p.enqueued,
    append_assoc (bytes_on stdout (on_way s)) bytes s.out.unread,
  )
  Pushed-Inv stderr bytes p = ground (
    arith,
    data-Enqueued stderr bytes p.enqueued,
    append_assoc (bytes_on stderr (on_way s)) bytes s.err.unread,
  )

  pub Ended-Inv : (o : ExecOutput) → Ended texts o s t → OutInv texts t
  Ended-Inv o e =
      let (streams, grown, room) = ending-Enqueued o e.no_data e.enqueued in
      ground (arith, streams stdout, streams stderr)

  pub close-Inv : sends s.main ≡ false → end_session texts s ≡ moved t → OutInv texts t
  unfolding end_session messages_so_far
  close-Inv quiet h = ground arith

  pub end_session-Inv : end_session texts s ≡ moved t → OutInv texts t
  end_session-Inv h = elim (Bool-cases (sends s.main)) [
    | inl loud ↦ Ended-Inv (message texts s.main) (end_session-Ended texts s t loud h)
    | inr quiet ↦ close-Inv quiet h
  ]

-- No move on the way out breaks it.
pub out_act-Inv :
    (texts : Texts) (a : OutAction) (s t : Outbound)
    → OutInv texts s
    → out_act texts a s ≡ moved t
    → OutInv texts t
unfolding out_act
out_act-Inv texts (command_writes which bytes) s t inv h =
    write_pipe-Inv texts s t inv which bytes h
out_act-Inv texts (pump_reads which) s t inv h = read_pipe-Inv texts s t inv which h
out_act-Inv texts (pump_sends which) s t inv h =
    Pushed-Inv texts s t inv which _ (push_output-Pushed s t which h)
out_act-Inv texts (stream_ends result) s t inv h = end_stream-Inv texts s t inv result h
out_act-Inv texts main_sends s t inv h = end_session-Inv texts s t inv h
out_act-Inv texts next_output s t inv h = take_output-Inv texts s t inv h
out_act-Inv texts (response_sent answer) s t inv h =
    Responded-Inv texts s t inv (send_response-Responded s t answer h)
out_act-Inv texts forwarder_reports s t inv h = report_result-Inv texts s t inv h
out_act-Inv texts main_joins s t inv h = join-Inv texts s t inv h

pub new_outbound-Inv : (texts : Texts) → OutInv texts new_outbound
unfolding bytes_on endings_in messages_so_far
new_outbound-Inv texts = ground arith

-- Only handleOutput can panic, where it sends on the channel that is closed already.
pub out_act-panicked :
    (texts : Texts) (a : OutAction) (s : Outbound)
    → OutInv texts s
    → out_act texts a s ≡ panicked
    → (which : StreamType) × (a ≡ pump_sends which)
      × ((pipe_of which s).pump ≡ holding (in_pump (pipe_of which s).pump))
      × (s.outputs.closed ≡ true)
unfolding out_act write_pipe read_pipe push_output end_stream end_session take_output send_response
    report_result join
out_act-panicked texts (command_writes stdout bytes) s inv h = ground arith
out_act-panicked texts (command_writes stderr bytes) s inv h = ground arith
out_act-panicked texts (pump_reads stdout) s inv h = ground arith
out_act-panicked texts (pump_reads stderr) s inv h = ground arith
out_act-panicked texts (pump_sends stdout) s inv h = (stdout, refl, ground arith, ground arith)
out_act-panicked texts (pump_sends stderr) s inv h = (stderr, refl, ground arith, ground arith)
out_act-panicked texts (stream_ends result) s inv h = ground arith
out_act-panicked texts main_sends s inv h = ground arith
out_act-panicked texts next_output s inv h = elim (receive-cases s.outputs) [
  | inl some_left ↦ ground arith
  | inr none_left ↦ ground arith
]
out_act-panicked texts (response_sent answer) s inv h = ground arith
out_act-panicked texts forwarder_reports s inv h = ground arith
out_act-panicked texts main_joins s inv h = elim (receive-cases s.err_chan) [
  | inl some_left ↦ ground arith
  | inr none_left ↦ ground arith
]
