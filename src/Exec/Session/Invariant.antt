-- ===== src/Exec/Session/Invariant.antt =====
-- The invariant of a session of internal/service/resource.go and internal/data/exec.go.
use mathlib.Core.Path.{subst}
use run_all_resource.Prelude.{◌≡◌, refl, ap, Bool, true, arith}
use run_all_resource.Go.{Texts, Result, ok, err}
use run_all_resource.Go.Channel.{Turn, moved, blocked, panicked, map_turn-moved, map_turn-panicked}
use run_all_resource.Service.Exec.{StreamType}
use run_all_resource.Data.Exec.{PodExec}
use run_all_resource.Exec.Inbound.{start_handler}
use run_all_resource.Exec.Inbound.Views.{InInv}
use run_all_resource.Exec.Inbound.Delivered.{
  in_act-Inv, start_handler-Inv, new_inbound-Inv, in_act-ne-panicked,
}
use run_all_resource.Exec.Outbound.{begin, pump_sends}
use run_all_resource.Exec.State.{Outbound, pipe_of, holding}
use run_all_resource.Exec.Outbound.Views.{OutInv, in_pump}
use run_all_resource.Exec.Outbound.Streams.{
  out_act-Inv, begin-Inv, new_outbound-Inv, out_act-panicked,
}
use run_all_resource.Exec.Session.{
  Session, new_session, Action, start_exec, inward, outward, started, act, Reach, here, later,
}

unfoldable pub SessionInv : Texts → Session → Type 0
SessionInv texts s = InInv s.tty s.inbound × OutInv texts s.outbound

module _ (texts : Texts) where
  started-Inv :
      (prepared : Result PodExec) (o : Outbound) (s t : Session)
      → OutInv texts o
      → InInv s.tty s.inbound
      → started texts prepared o s ≡ moved t
      → SessionInv texts t
  unfolding SessionInv
  started-Inv (ok p) o s t inv_o inv_i h =
      let (i, e, same) = map_turn-moved _ _ t h in
      subst (SessionInv texts) same (start_handler-Inv s.inbound i inv_i e, inv_o)
  started-Inv (err x) o s t inv_o inv_i h = subst (SessionInv texts) (moved_is h) (inv_i, inv_o)
    where
      moved_is : moved (record s { outbound = o }) ≡ moved t → record s { outbound = o } ≡ t
      moved_is e = cc

  act-Inv :
      (a : Action) (s t : Session)
      → SessionInv texts s
      → act texts a s ≡ moved t
      → SessionInv texts t
  unfolding SessionInv act
  act-Inv (inward a) s t (inv_i, inv_o) h =
      let (i, e, same) = map_turn-moved _ _ t h in
      subst (SessionInv texts) same (in_act-Inv s.tty a s.inbound i inv_i e, inv_o)
  act-Inv (outward a) s t (inv_i, inv_o) h =
      let (o, e, same) = map_turn-moved _ _ t h in
      subst (SessionInv texts) same (inv_i, out_act-Inv texts a s.outbound o inv_o e)
  act-Inv start_exec s t (inv_i, inv_o) h = go (begin s.prepared s.outbound) refl h
    where
      go :
          (r : Turn Outbound)
          → begin s.prepared s.outbound ≡ r
          → elim r [
            | moved o ↦ started texts s.prepared o s
            | blocked ↦ blocked
            | panicked ↦ panicked
          ]
            ≡ moved t
          → SessionInv texts t
      go (moved o) e k =
          started-Inv s.prepared o s t (begin-Inv texts s.outbound o inv_o s.prepared e) inv_i k
      go blocked e k = cc
      go panicked e k = cc

  -- In every session that is reached from the start by any moves of the goroutines, of the client and of
  -- the command, in any order: no channel holds more than ten items. The bytes of the input requests are, in
  -- their order, those that the command has read, those of the write that is under way or failed, and
  -- those of the inputs that wait; so are the sizes of the resize requests those that the executor was
  -- given, those in the queue, and those that wait, and without a terminal it is given none. What
  -- the command wrote to a stream is, in its order, what the responses of that stream carry that were sent
  -- or are on their way, and what is read or still to be read from its pipe. The error and exit responses
  -- are those that StreamExec has sent so far. A channel is closed exactly if its sender has returned,
  -- the output channel exactly if StreamExec has, and no goroutine of handleOutput returns.
  pub Reach-SessionInv :
      {tty : Bool} {prepared : Result PodExec} {s : Session}
      → Reach texts (new_session tty prepared) s
      → SessionInv texts s
  unfolding SessionInv
  Reach-SessionInv {tty} here = (new_inbound-Inv tty, new_outbound-Inv texts)
  Reach-SessionInv (later {t} {u} r a e) = act-Inv a t u (Reach-SessionInv r) e

  -- In a session that is reached from the start, the only move that makes the program panic is that of
  -- a handleOutput that has read bytes and sends them when ExecContainer has closed the output channel.
  pub only_late_outputs_panic :
      {tty : Bool} {prepared : Result PodExec} {s : Session}
      → Reach texts (new_session tty prepared) s
      → (a : Action) → act texts a s ≡ panicked
      → (which : StreamType) × (a ≡ outward (pump_sends which))
        × ((pipe_of which s.outbound).pump ≡ holding (in_pump (pipe_of which s.outbound).pump))
        × (s.outbound.outputs.closed ≡ true)
  unfolding SessionInv act begin start_handler
  only_late_outputs_panic {s = s} r (inward a) h =
      absurd (in_act-ne-panicked s.tty a s.inbound (Reach-SessionInv r).0 (map_turn-panicked _ _ h))
  only_late_outputs_panic {s = s} r (outward a) h =
      let (which, same, full, closed) =
        out_act-panicked texts a s.outbound (Reach-SessionInv r).1 (map_turn-panicked _ _ h) in
      (which, ap outward same, full, closed)
  only_late_outputs_panic r start_exec h = ground arith
