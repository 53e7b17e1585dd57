-- ===== src/Exec/Session/Results.antt =====
-- What ExecContainer of internal/service/resource.go returns, beside what its client was sent.
use mathlib.Core.List.{append-nil}
use run_all_resource.Prelude.{◌≡◌, ℕ, List, sym, ap, ◌∙◌, Bool, none, [], ◌++◌, arith}
use run_all_resource.Go.{Texts, Result}
use run_all_resource.Service.Exec.{StreamType, stdout, stderr}
use run_all_resource.Data.Exec.{PodExec}
use run_all_resource.Exec.State.{Outbound, Ending, returned, pipe_of}
use run_all_resource.Exec.Outbound.Views.{
  OutInv, in_pump, bytes_on, endings_in, messages_of, messages_so_far, on_way,
}
use run_all_resource.Exec.Session.{Session, new_session, Reach}
use run_all_resource.Exec.Session.Invariant.{SessionInv, Reach-SessionInv}

-- nothing is left on the way where the output goroutine reported success
nothing_left :
    (texts : Texts) (o : Outbound) (ending : Ending)
    → OutInv texts o
    → o.main ≡ returned ending none
    → on_way o ≡ o.sent ++ []
nothing_left texts o ending inv h = ground arith

-- Once ExecContainer has returned without an error, the client was sent the responses for the end of the
-- session, each once and in their order: the exit with code 0 where the command ran without an error, the
-- text of the error and the exit with code 1 where it did not, and none where StreamExec failed before it
-- ran the command. Of each stream it was sent all that the command wrote but what handleOutput holds or
-- the pipe still has.
pub returned-all_sent :
    {tty : Bool} {prepared : Result PodExec} {s : Session} {ending : Ending}
    → (texts : Texts) (which : StreamType) → Reach texts (new_session tty prepared) s
    → s.outbound.main ≡ returned ending none
    → (endings_in s.outbound.sent ≡ messages_of texts ending)
      × ((pipe_of which s.outbound).written
          ≡ bytes_on which s.outbound.sent
            ++ (in_pump (pipe_of which s.outbound).pump ++ (pipe_of which s.outbound).unread))
unfolding SessionInv messages_so_far
returned-all_sent {s = s} {ending} texts which r h =
    let inv = (Reach-SessionInv texts r).1 in
    let all = nothing_left texts s.outbound ending inv h ∙ append-nil s.outbound.sent in
    (
      sym (ap endings_in all) ∙ inv.endings_kept ∙ ap (messages_so_far texts) h,
      kept which inv ∙ ap (λ sent. bytes_on which sent ++ pending) all,
    )
  where
    pending : List ℕ
    pending = in_pump (pipe_of which s.outbound).pump ++ (pipe_of which s.outbound).unread

    kept :
        (which : StreamType)
        → OutInv texts s.outbound
        → (pipe_of which s.outbound).written
          ≡ bytes_on which (on_way s.outbound)
            ++ (in_pump (pipe_of which s.outbound).pump ++ (pipe_of which s.outbound).unread)
    kept stdout inv = inv.out_kept
    kept stderr inv = inv.err_kept
