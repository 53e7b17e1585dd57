-- ===== src/Tests/Exec.antt =====
-- Exec sessions at concrete inputs.
use run_all_resource.Tests.Shell.{
  after, done, ended, fresh, has_moved, late, repeat, session_of, shell, talk,
}
use run_all_resource.Prelude.{
  pos, String, ◌≡◌, ◌↔◌, refl, true, false, Option, none, some, List, [], ◌∷◌, ◌++◌, map, arith,
}
use run_all_resource.Go.{Error, plain, ok, err}
use run_all_resource.Go.Channel.{Turn, moved, blocked, panicked}
use run_all_resource.Go.Decimal.{format_int, itoa}
use run_all_resource.Biz.Instance.{get_resource}
use run_all_resource.Service.Exec.{
  ExecInit, init, input_of, input, resize, StreamType, stdout, stderr, output, exit, admit,
  response_of,
}
use run_all_resource.Service.Exec.Admitted.{Admits, admit-Admits}
use run_all_resource.Data.Names.{get_pod_selector}
use run_all_resource.Data.Exec.{PodClient, size_of, prepare, first_pod, pod_exec}
use run_all_resource.Data.Kube.Objects.{Container}
use run_all_resource.Data.Kube.Deployments.{deployment_of}
use run_all_resource.Data.Kube.Deployments.Pods.{selects}
use run_all_resource.Exec.Inbound.{
  handler_for, resizing, recv_request, send_input, handle_next, send_size,
}
use run_all_resource.Exec.Outbound.{
  buffer_size, command_writes, pump_reads, pump_sends, stream_ends, main_sends, next_output,
  response_sent, forwarder_reports, main_joins,
}
use run_all_resource.Exec.State.{never_ran, ran, joining, pipe_of, holding}
use run_all_resource.Exec.Outbound.Views.{in_pump, bytes_on, endings_in, messages_of}
use run_all_resource.Exec.Pods.{selector_text, exec_runs_in_instance}
use run_all_resource.Exec.Session.{
  exec_container, Session, new_session, Action, start_exec, inward, outward, act, Reach,
  prepare_exec,
}
use run_all_resource.Exec.Session.Invariant.{SessionInv, Reach-SessionInv, only_late_outputs_panic}
use run_all_resource.Exec.Session.Schedule.{run, run-Reach}
use run_all_resource.Exec.Session.Results.{returned-all_sent}
use run_all_resource.Exec.Session.Late.{late_outputs_panic}
use run_all_resource.Exec.Session.Unprepared.{unprepared_is_silent}
use run_all_resource.Exec.Session.Stuck.{resizes_block_stdin, unread_outputs_block, in_stream_exec}
use run_all_resource.Exec.Session.Returns.{Returns, Reach-Returns}
use run_all_resource.Tests.Sample.{World, with_instance, sample, sample_texts, web}

reached :
    (s : Session) (actions : List Action)
    → has_moved (run sample_texts actions s) ≡ true
    → Reach sample_texts s (after s actions)
reached s actions h = run-Reach sample_texts actions s (after s actions) (moves _ h)
  where
    moves : (r : Turn Session) → has_moved r ≡ true → r ≡ moved (session_of r)
    moves (moved t) k = refl
    moves blocked k = cc
    moves panicked k = cc

what_is_sent :
    ((after fresh done).outbound.sent ≡ output stdout (97 ∷ 98 ∷ []) ∷ exit (pos 0) ∷ [])
    × ((after fresh done).inbound.stdin ≡ 108 ∷ 115 ∷ [])
unfolding run buffer_size input_of handler_for response_of
what_is_sent = (refl, refl)

Reach-SessionInv_example : SessionInv sample_texts (after fresh talk)
unfolding run buffer_size input_of handler_for
Reach-SessionInv_example = Reach-SessionInv sample_texts (reached fresh talk refl)

only_late_outputs_panic_example :
    let s = after fresh late in
    (which : StreamType) × (outward (pump_sends stdout) ≡ outward (pump_sends which))
    × ((pipe_of which s.outbound).pump ≡ holding (in_pump (pipe_of which s.outbound).pump))
    × (s.outbound.outputs.closed ≡ true)
unfolding run buffer_size input_of handler_for act
only_late_outputs_panic_example =
    only_late_outputs_panic sample_texts (reached fresh late refl) (outward (pump_sends stdout))
      refl

returned-all_sent_example :
    let s = (after fresh done).outbound in
    (endings_in s.sent ≡ messages_of sample_texts (ran none))
    × (s.out.written ≡ bytes_on stdout s.sent ++ (in_pump s.out.pump ++ s.out.unread))
unfolding run buffer_size input_of handler_for
returned-all_sent_example = returned-all_sent sample_texts stdout (reached fresh done refl) refl

late_outputs_panic_example :
    (s : Session) × Reach sample_texts (new_session true (ok shell)) s
    × ((pipe_of stderr s.outbound).written ≡ 97 ∷ 98 ∷ [])
    × (s.outbound.main ≡ joining (ran none))
    × (act sample_texts (outward (pump_sends stderr)) s ≡ panicked)
late_outputs_panic_example = late_outputs_panic sample_texts true shell stderr 97 (98 ∷ []) none

abbrev no_pod : Error
no_pod = plain "pod not found for instance 7"

abbrev failing : Session
failing = new_session false (err no_pod)

abbrev fails : List Action
fails =
    start_exec
    ∷ outward main_sends
    ∷ outward next_output
    ∷ outward forwarder_reports
    ∷ outward main_joins
    ∷ []

abbrev shell_init : ExecInit
shell_init = record { instance_id = pos 7; command = "sh" ∷ []; tty = false; container_name = none }

abbrev no_pods : PodClient World
no_pods = record {
  list_pods = λ namespace selector limit w. (ok [], w);
  new_spdy_executor = λ exec w. (ok tt, w);
}

unprepared_is_silent_example :
    ((after failing fails).outbound.sent ≡ [])
    × (◌≡◌ {A = Option Error} none none)
    × (never_ran no_pod ≡ never_ran no_pod)
unfolding run exec_container get_resource prepare format_int itoa
unprepared_is_silent_example =
    unprepared_is_silent sample_texts (sample (ok tt)) no_pods (ok (init shell_init)) with_instance
      with_instance failing (after failing fails) no_pod (never_ran no_pod) none refl refl
      (reached failing fails refl) refl

-- a resize request that reaches handleInput
abbrev resized : List Action
resized = inward (recv_request (ok (resize 24 80))) ∷ inward send_input ∷ inward handle_next ∷ []

abbrev eleven_resizes : List Action
eleven_resizes = start_exec ∷ repeat 10 (resized ++ inward send_size ∷ []) ++ resized

abbrev typed : List Action
typed = inward (recv_request (ok (input (108 ∷ 115 ∷ [])))) ∷ inward send_input ∷ []

resizes_block_stdin_example :
    let s = after fresh eleven_resizes in
    let t = after s typed in
    (t.inbound.handler ≡ resizing (record { width = 80; height = 24 }))
    × (t.inbound.stdin ≡ s.inbound.stdin)
unfolding run input_of handler_for size_of
resizes_block_stdin_example =
    resizes_block_stdin sample_texts {s = after fresh eleven_resizes} refl refl (omega arith)
      (reached (after fresh eleven_resizes) typed refl)

-- a line of the command that joins the output channel
abbrev line : List Action
line =
    outward (command_writes stdout (97 ∷ []))
    ∷ outward (pump_reads stdout)
    ∷ outward (pump_sends stdout)
    ∷ []

abbrev hung_up : List Action
hung_up =
    start_exec ∷ line
    ++ outward next_output
      ∷ outward (response_sent (some (plain "transport is closing")))
      ∷ repeat 10 line

abbrev cancelled : List Action
cancelled = outward (stream_ends (some (plain "context canceled"))) ∷ []

unread_outputs_block_example :
    in_stream_exec (after (after fresh hung_up) cancelled).outbound.main ≡ true
unfolding run buffer_size
unread_outputs_block_example =
    unread_outputs_block sample_texts {s = after fresh hung_up} refl (omega arith) refl
      (reached (after fresh hung_up) cancelled refl)

Reach-Returns_example : Returns sample_texts (after fresh ended).outbound
unfolding run buffer_size input_of handler_for
Reach-Returns_example = Reach-Returns sample_texts (reached fresh ended refl) refl refl

admit-Admits_example :
    (admit sample_texts (sample (ok tt)) (ok (init shell_init)) with_instance
      ≡ (ok (shell_init, "u1"), with_instance))
    ↔ Admits (sample (ok tt)) (ok (init shell_init)) with_instance with_instance shell_init "u1"
admit-Admits_example =
    admit-Admits sample_texts (sample (ok tt)) (ok (init shell_init)) with_instance with_instance
      shell_init "u1"

abbrev one_pod : PodClient World
one_pod = record {
  list_pods = λ namespace selector limit w. (ok ("7-5d4f" ∷ []), w);
  new_spdy_executor = λ exec w. (ok tt, w);
}

exec_runs_in_instance_example :
    ("u1" ≡ (deployment_of web).namespace)
    × (map (λ (c : Container). c.name) (deployment_of web).containers ≡ "7" ∷ [])
    × (shell.command ≡ shell_init.command)
    × (shell.tty ≡ shell_init.tty)
    × ((more : List String) × (v : World) × (one_pod.list_pods "u1"
            (selector_text (get_pod_selector (format_int (pos 7))))
            1
            with_instance
          ≡ (ok ("7-5d4f" ∷ more), v)))
    × ((selects (get_pod_selector (format_int (pos 7))) (deployment_of web).pod_labels ≡ true)
        ↔ (pos 7 ≡ web.instance_id))
unfolding prepare_exec prepare first_pod pod_exec format_int itoa
exec_runs_in_instance_example =
    exec_runs_in_instance one_pod web web shell_init with_instance with_instance shell refl refl
      refl
