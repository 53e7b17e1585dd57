-- ===== src/Tests/Shell.antt =====
-- A session with a shell, and lists of its moves.
use run_all_resource.Prelude.{ℕ, zero, suc, Bool, true, false, none, List, [], ◌∷◌, ◌++◌}
use run_all_resource.Go.{ok}
use run_all_resource.Go.Channel.{Turn, moved}
use run_all_resource.Service.Exec.{input, stdout}
use run_all_resource.Data.Exec.{PodExec}
use run_all_resource.Exec.Inbound.{recv_request, send_input, handle_next, stdin_read}
use run_all_resource.Exec.Outbound.{
  command_writes, pump_reads, pump_sends, stream_ends, main_sends, next_output, response_sent,
  forwarder_reports, main_joins,
}
use run_all_resource.Exec.Session.{Session, new_session, Action, start_exec, inward, outward}
use run_all_resource.Exec.Session.Schedule.{run}
use run_all_resource.Tests.Sample.{sample_texts}

abbrev pub shell : PodExec
shell = record {
  pod = "7-5d4f";
  namespace = "u1";
  container = "7";
  command = "sh" ∷ [];
  stdin = true;
  stdout = true;
  stderr = true;
  tty = false;
}

abbrev pub fresh : Session
fresh = new_session false (ok shell)

abbrev pub session_of : Turn Session → Session
session_of (moved s) = s
session_of _ = fresh

abbrev pub repeat : ℕ → List Action → List Action
repeat zero actions = []
repeat (suc n) actions = actions ++ repeat n actions

-- a line for the shell, and its answer
abbrev pub talk : List Action
talk =
    start_exec
    ∷ inward (recv_request (ok (input (108 ∷ 115 ∷ []))))
    ∷ inward send_input
    ∷ inward handle_next
    ∷ inward (stdin_read 2)
    ∷ outward (command_writes stdout (97 ∷ 98 ∷ []))
    ∷ outward (pump_reads stdout)
    ∷ []

abbrev pub answered : List Action
answered =
    talk ++ outward (pump_sends stdout) ∷ outward next_output ∷ outward (response_sent none) ∷ []

abbrev pub ended : List Action
ended = answered ++ outward (stream_ends none) ∷ outward main_sends ∷ []

abbrev pub done : List Action
done =
    ended
    ++ outward main_sends
      ∷ outward next_output
      ∷ outward (response_sent none)
      ∷ outward next_output
      ∷ outward forwarder_reports
      ∷ outward main_joins
      ∷ []

abbrev pub late : List Action
late = talk ++ outward (stream_ends none) ∷ outward main_sends ∷ outward main_sends ∷ []

abbrev pub after : Session → List Action → Session
after s actions = session_of (run sample_texts actions s)

abbrev pub has_moved : Turn Session → Bool
has_moved (moved _) = true
has_moved _ = false
