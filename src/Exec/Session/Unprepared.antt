-- ===== src/Exec/Session/Unprepared.antt =====
-- Sessions whose preparations fail in StreamExec of internal/data/exec.go: the pods cannot be listed,
-- there is none, or there is no executor.
use mathlib.Core.Path.{subst}
use run_all_resource.Prelude.{◌≡◌, inl, inr, Bool, true, false, Option, none, [], arith}
use run_all_resource.Go.{Error, Texts, err}
use run_all_resource.Go.Channel.{moved, map_turn-moved, receive-cases}
use run_all_resource.Exec.Outbound.{
  OutAction, command_writes, pump_reads, pump_sends, stream_ends, main_sends, next_output,
  response_sent, forwarder_reports, main_joins, out_act, begin, write_pipe, read_pipe, push_output,
  end_stream, end_session, take_output, send_response, report_result, join,
}
use run_all_resource.Exec.State.{
  Main, preparing, closing, joining, returned, Ending, never_ran, idle, Forwarder, ranging,
  reporting_success, gone, Outbound,
}
use run_all_resource.Service.Exec.{stdout, stderr}
use run_all_resource.Exec.Session.{
  Session, new_session, Action, inward, outward, start_exec, act, Reach, here, later,
}
use run_all_resource.Go.{Result, ok, pure, attempt, ◌>>=◌}
use run_all_resource.Prelude.{String, ap, ◌∙◌}
use run_all_resource.Biz.Repos.{ResourceUsecase}
use run_all_resource.Service.Exec.{ExecInit, ExecRequest, admit}
use run_all_resource.Data.Exec.{PodClient}
use run_all_resource.Exec.Session.{prepare_exec, exec_container}
use run_all_resource.Exec.Session.Invariant.{SessionInv, Reach-SessionInv}

abbrev FailedWith : Error → Ending → Type 0
FailedWith e ending = ending ≡ never_ran e

abbrev IsFailing : Error → Main → Type 0
IsFailing e preparing = Unit
IsFailing e (closing ending) = FailedWith e ending
IsFailing e (joining ending) = FailedWith e ending
IsFailing e (returned ending result) = FailedWith e ending
IsFailing e _ = true ≡ false

abbrev is_quiet : Forwarder → Bool
is_quiet ranging = true
is_quiet reporting_success = true
is_quiet (gone none) = true
is_quiet _ = false

record Quiet (e : Error) (o : Outbound) : Type 0 where
  failing : IsFailing e o.main
  quiet : is_quiet o.forwarder ≡ true
  idle_out : o.out.pump ≡ idle
  idle_err : o.err.pump ≡ idle
  no_output : o.outputs.items ≡ []
  nothing_sent : o.sent ≡ []

out_act-Quiet :
    (texts : Texts) (e : Error) (a : OutAction) (s t : Outbound)
    → Quiet e s
    → out_act texts a s ≡ moved t
    → Quiet e t
unfolding out_act write_pipe read_pipe push_output end_stream end_session take_output send_response
    report_result join
out_act-Quiet texts e (command_writes stdout bytes) s t q h = ground arith
out_act-Quiet texts e (command_writes stderr bytes) s t q h = ground arith
out_act-Quiet texts e (pump_reads stdout) s t q h = ground arith
out_act-Quiet texts e (pump_reads stderr) s t q h = ground arith
out_act-Quiet texts e (pump_sends stdout) s t q h = ground arith
out_act-Quiet texts e (pump_sends stderr) s t q h = ground arith
out_act-Quiet texts e (stream_ends result) s t q h = ground arith
out_act-Quiet texts e main_sends s t q h = ground arith
out_act-Quiet texts e next_output s t q h = elim (receive-cases s.outputs) [
  | inl some_left ↦ ground arith
  | inr none_left ↦ ground arith
]
out_act-Quiet texts e (response_sent answer) s t q h = ground arith
out_act-Quiet texts e forwarder_reports s t q h = ground arith
out_act-Quiet texts e main_joins s t q h = elim (receive-cases s.err_chan) [
  | inl some_left ↦ ground arith
  | inr none_left ↦ ground arith
]

record QuietSession (e : Error) (s : Session) : Type 0 where
  unprepared : s.prepared ≡ err e
  calm : Quiet e s.outbound

module _ (texts : Texts) (e : Error) where
  act-QuietSession :
      (a : Action) (s t : Session) → QuietSession e s → act texts a s ≡ moved t → QuietSession e t
  unfolding act begin
  act-QuietSession (inward a) s t q h =
      let (i, _, same) = map_turn-moved _ _ t h in
      subst (QuietSession e) same (record { unprepared = q.unprepared; calm = q.calm })
  act-QuietSession (outward a) s t q h =
      let (o, moves, same) = map_turn-moved _ _ t h in
      subst (QuietSession e) same (record {
        unprepared = q.unprepared;
        calm = out_act-Quiet texts e a s.outbound o q.calm moves;
      })
  act-QuietSession start_exec s t q h = ground arith

  Reach-QuietSession :
      {tty : Bool} {s : Session} → Reach texts (new_session tty (err e)) s → QuietSession e s
  Reach-QuietSession here = ground arith
  Reach-QuietSession (later {t} {u} r a h) = act-QuietSession a t u (Reach-QuietSession r) h

-- ExecContainer starts its sessions with empty channels.
exec_container-new :
    {W : Type 0} (texts : Texts) (uc : ResourceUsecase W) (client : PodClient W)
    (first : Result ExecRequest) (w w' : W) (s : Session)
    → exec_container texts uc client first w ≡ (ok s, w')
    → s ≡ new_session s.tty s.prepared
unfolding exec_container
exec_container-new {W = W} texts uc client first w w' s h = go (admit texts uc first w) h
  where
    go :
        (p : Result (ExecInit × String) × W)
        → ((λ (v : W). p) >>= (λ (i, namespace).
              attempt (prepare_exec client i namespace) >>= λ prepared.
              pure (new_session i.tty prepared)))
            w
          ≡ (ok s, w')
        → s ≡ new_session s.tty s.prepared
    go (ok (i, namespace), v) k = cc
    go (err e, v) k = cc

-- Where ExecContainer has started a session for which StreamExec fails before it runs the command, the session
-- ends as if nothing had gone wrong: the client is sent nothing, not the error and not an exit, and
-- ExecContainer returns no error.
pub unprepared_is_silent :
    {W : Type 0} (texts : Texts) (uc : ResourceUsecase W) (client : PodClient W)
    (first : Result ExecRequest) (w w' : W) (start s : Session) (e : Error) (ending : Ending)
    (result : Option Error)
    → exec_container texts uc client first w ≡ (ok start, w')
    → start.prepared ≡ err e
    → Reach texts start s
    → s.outbound.main ≡ returned ending result
    → (s.outbound.sent ≡ []) × (result ≡ none) × (ending ≡ never_ran e)
unfolding SessionInv
unprepared_is_silent texts uc client first w w' start s e ending result opened fails r h =
    let fresh : start ≡ new_session start.tty (err e) =
      exec_container-new texts uc client first w w' start opened
      ∙ ap (new_session start.tty) fails in
    let from_new = subst (λ t. Reach texts t s) fresh r in
    ground
      (arith, (Reach-SessionInv texts from_new).1.one_result, Reach-QuietSession texts e from_new)
