-- ===== src/Exec/Outbound.antt =====
-- The way out: StreamExec after its preparations and handleOutput (internal/data/exec.go), and the output
-- goroutine and the end of ExecContainer (internal/service/resource.go).
pub mod Views
pub mod Moves
pub mod Streams
use run_all_resource.Exec.State.{
  Ending, Forwarder, Main, OutPipe, Outbound, Pump, closing, exiting, finished, gone, holding, idle,
  joining, name_of, never_ran, new_outbound, new_pipe, pipe_of, preparing, ran, ranging, reading,
  reporting, reporting_failure, reporting_success, responding, returned, streaming, with_pipe,
}
use run_all_resource.Prelude.{
  ℕ, String, ℤ, pos, Bool, true, false, Option, none, some, List, [], ◌∷◌, ◌++◌, take, drop,
  if◌then◌else◌,
}
use run_all_resource.Go.{Error, Texts, error_text, Result, ok, err}
use run_all_resource.Go.Text.{bytes_of}
use run_all_resource.Go.Channel.{
  Turn, moved, blocked, map_turn, Channel, make_channel, send, item, ended, nothing, receive, close,
}
use run_all_resource.Biz.Types.{ExecOutput, exec_output_data, exec_output_error, exec_output_exit}
use run_all_resource.Service.Exec.{StreamType, stdout, stderr, ExecResponse, response_of}
use run_all_resource.Data.Exec.{PodExec}
use run_all_resource.Exec.Inbound.{capacity}

-- StreamExec is prepared: it starts its goroutines and the command, or it returns the error.
unfoldable pub begin : Result PodExec → Outbound → Turn Outbound
begin prepared s = elim s.main [
  | preparing ↦ elim prepared [
    | ok _ ↦ moved (record s {
      main = streaming;
      out = record s.out { pump = reading };
      err = record s.err { pump = reading };
    })
    | err e ↦ moved (record s { main = closing (never_ran e) })
  ]
  | _ ↦ blocked
]

-- The executor writes to a pipe, at any time after it was made; a second write waits until the first is
-- read.
unfoldable pub write_pipe : StreamType → List ℕ → Outbound → Turn Outbound
write_pipe which bytes s =
    let p = pipe_of which s in
    elim p.pump [
      | idle ↦ blocked
      | finished ↦ blocked
      | _ ↦ elim p.unread [
        | [] ↦ moved (with_pipe which (record p { written = p.written ++ bytes; unread = bytes }) s)
        | _ ∷ _ ↦ blocked
      ]
    ]

-- `make([]byte, 8192)`
unfoldable pub buffer_size : ℕ
buffer_size = 8192

-- `reader.Read(buf)` returns: with the bytes that are there, as many as the buffer holds, or with EOF
-- once the other end is closed. Where there is neither it waits.
abbrev read_some : List ℕ → OutPipe → Turn OutPipe
read_some [] p = if p.writer_closed then moved (record p { pump = finished }) else blocked
read_some (b ∷ bs) p =
    moved
      (record p { unread = drop buffer_size (b ∷ bs); pump = holding (take buffer_size (b ∷ bs)) })

unfoldable pub read_pipe : StreamType → Outbound → Turn Outbound
read_pipe which s =
    let p = pipe_of which s in
    elim p.pump [
      | reading ↦ map_turn (λ q. with_pipe which q s) (read_some p.unread p)
      | _ ↦ blocked
    ]

abbrev pub data_output : StreamType → List ℕ → ExecOutput
data_output which bytes = record {
  type = exec_output_data;
  stream = name_of which;
  bytes = bytes;
  exit_code = pos 0;
}

-- `output <- biz.ExecOutput{…}` of handleOutput
unfoldable pub push_output : StreamType → Outbound → Turn Outbound
push_output which s =
    let p = pipe_of which s in
    elim p.pump [
      | holding bytes ↦
          map_turn (λ c. record (with_pipe which (record p { pump = reading }) s) { outputs = c })
            (send capacity (data_output which bytes) s.outputs)
      | _ ↦ blocked
    ]

abbrev after_stream : Option Error → Main
after_stream none = exiting none
after_stream (some e) = reporting e

-- `exec.StreamWithContext` returns.
unfoldable pub end_stream : Option Error → Outbound → Turn Outbound
end_stream result s = elim s.main [
  | streaming ↦ moved (record s { main = after_stream result })
  | _ ↦ blocked
]

abbrev pub error_output : Texts → Error → ExecOutput
error_output texts e = record {
  type = exec_output_error;
  stream = "";
  bytes = bytes_of (error_text texts e);
  exit_code = pos 0;
}

abbrev exit_code_of : Option Error → ℤ
exit_code_of none = pos 0
exit_code_of (some _) = pos 1

abbrev pub exit_output : Option Error → ExecOutput
exit_output result = record {
  type = exec_output_exit;
  stream = "";
  bytes = [];
  exit_code = exit_code_of result;
}

-- the two sends of StreamExec, and `close(outputChan)` after it
unfoldable pub end_session : Texts → Outbound → Turn Outbound
end_session texts s = elim s.main [
  | reporting e ↦
      map_turn (λ c. record s { main = exiting (some e); outputs = c })
        (send capacity (error_output texts e) s.outputs)
  | exiting result ↦
      map_turn (λ c. record s { main = closing (ran result); outputs = c })
        (send capacity (exit_output result) s.outputs)
  | closing ending ↦
      map_turn (λ c. record s { main = joining ending; outputs = c }) (close s.outputs)
  | _ ↦ blocked
]

-- `for out := range outputChan`
unfoldable pub take_output : Outbound → Turn Outbound
take_output s = elim s.forwarder [
  | ranging ↦ elim (receive s.outputs) [
    | item o c ↦ moved (record s { forwarder = responding o; outputs = c })
    | ended ↦ moved (record s { forwarder = reporting_success })
    | nothing ↦ blocked
  ]
  | _ ↦ blocked
]

-- `stream.Send(resp)` returns.
unfoldable pub send_response : Option Error → Outbound → Turn Outbound
send_response answer s = elim s.forwarder [
  | responding o ↦ elim answer [
    | none ↦ moved (record s { forwarder = ranging; sent = s.sent ++ response_of o ∷ [] })
    | some e ↦ moved (record s { forwarder = reporting_failure o e })
  ]
  | _ ↦ blocked
]

-- `errChan <- …`, a channel for one item
unfoldable pub report_result : Outbound → Turn Outbound
report_result s = elim s.forwarder [
  | reporting_failure o e ↦
      map_turn (λ c. record s { forwarder = gone (some (o, e)); err_chan = c })
        (send 1 (some e) s.err_chan)
  | reporting_success ↦
      map_turn (λ c. record s { forwarder = gone none; err_chan = c }) (send 1 none s.err_chan)
  | _ ↦ blocked
]

-- `return <-errChan`
unfoldable pub join : Outbound → Turn Outbound
join s = elim s.main [
  | joining ending ↦ elim (receive s.err_chan) [
    | item result c ↦ moved (record s { main = returned ending result; err_chan = c })
    | ended ↦ moved (record s { main = returned ending none })
    | nothing ↦ blocked
  ]
  | _ ↦ blocked
]

pub data OutAction : Type 0 where
  command_writes : StreamType → List ℕ → OutAction
  pump_reads pump_sends : StreamType → OutAction
  stream_ends : Option Error → OutAction
  main_sends next_output : OutAction
  response_sent : Option Error → OutAction
  forwarder_reports main_joins : OutAction

unfoldable pub out_act : Texts → OutAction → Outbound → Turn Outbound
unfolding write_pipe read_pipe push_output end_stream end_session take_output send_response
    report_result join
out_act texts (command_writes which bytes) s = write_pipe which bytes s
out_act texts (pump_reads which) s = read_pipe which s
out_act texts (pump_sends which) s = push_output which s
out_act texts (stream_ends result) s = end_stream result s
out_act texts main_sends s = end_session texts s
out_act texts next_output s = take_output s
out_act texts (response_sent answer) s = send_response answer s
out_act texts forwarder_reports s = report_result s
out_act texts main_joins s = join s
