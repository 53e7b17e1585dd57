-- ===== src/Exec/State.antt =====
-- The state on the way out of a session: the positions of the goroutines, and the pipes and channels that
-- they share (internal/data/exec.go and internal/service/resource.go).
use run_all_resource.Prelude.{ℕ, String, Bool, false, Option, List, []}
use run_all_resource.Go.{Error}
use run_all_resource.Go.Channel.{Channel, make_channel}
use run_all_resource.Biz.Types.{ExecOutput}
use run_all_resource.Service.Exec.{StreamType, stdout, stderr, ExecResponse}

-- handleOutput: not started, in `reader.Read`, sending what it has read, or returned.
pub data Pump : Type 0 where
  idle reading : Pump
  holding : List ℕ → Pump
  finished : Pump

-- A pipe from the command and the handleOutput that reads it: all that the command wrote, what of it is
-- not read yet, and whether the end that the command writes to was closed.
pub record OutPipe : Type 0 where
  pub written : List ℕ
  pub unread : List ℕ
  pub writer_closed : Bool
  pub pump : Pump

-- How StreamExec came to its end: before it started anything, or with the result of the executor.
pub data Ending : Type 0 where
  never_ran : Error → Ending
  ran : Option Error → Ending

-- The goroutine of ExecContainer: preparing in StreamExec, in `StreamWithContext`, sending the error,
-- sending the exit, back from StreamExec, receiving from `errChan`, or returned with a result.
pub data Main : Type 0 where
  preparing streaming : Main
  reporting : Error → Main
  exiting : Option Error → Main
  closing joining : Ending → Main
  returned : Ending → Option Error → Main

-- The output goroutine: at the head of its loop, in `stream.Send`, sending its result on `errChan`, or
-- returned. Where it gives up it keeps the output that was not sent, with the error.
pub data Forwarder : Type 0 where
  ranging : Forwarder
  responding : ExecOutput → Forwarder
  reporting_failure : ExecOutput → Error → Forwarder
  reporting_success : Forwarder
  gone : Option (ExecOutput × Error) → Forwarder

-- `sent` is what the client was sent.
pub record Outbound : Type 0 where
  pub main : Main
  pub out : OutPipe
  pub err : OutPipe
  pub outputs : Channel ExecOutput
  pub forwarder : Forwarder
  pub sent : List ExecResponse
  pub err_chan : Channel (Option Error)

abbrev pub new_pipe : OutPipe
new_pipe = record { written = []; unread = []; writer_closed = false; pump = idle }

abbrev pub new_outbound : Outbound
new_outbound = record {
  main = preparing;
  out = new_pipe;
  err = new_pipe;
  outputs = make_channel;
  forwarder = ranging;
  sent = [];
  err_chan = make_channel;
}

abbrev pub pipe_of : StreamType → Outbound → OutPipe
pipe_of stdout s = s.out
pipe_of stderr s = s.err

abbrev pub with_pipe : StreamType → OutPipe → Outbound → Outbound
with_pipe stdout p s = record s { out = p }
with_pipe stderr p s = record s { err = p }

abbrev pub name_of : StreamType → String
name_of stdout = "stdout"
name_of stderr = "stderr"
