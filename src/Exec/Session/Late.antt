-- ===== src/Exec/Session/Late.antt =====
-- handleOutput of internal/data/exec.go when the command ends while it still holds some of the output.
use run_all_resource.Prelude.{ℕ, ◌≡◌, refl, Bool, Option, none, some, List, [], ◌∷◌}
use run_all_resource.Go.{Error, Texts, ok}
use run_all_resource.Go.Channel.{panicked}
use run_all_resource.Service.Exec.{StreamType, stdout, stderr}
use run_all_resource.Data.Exec.{PodExec}
use run_all_resource.Exec.Outbound.{
  buffer_size, command_writes, pump_reads, pump_sends, stream_ends, main_sends,
}
use run_all_resource.Exec.State.{joining, ran, pipe_of}
use run_all_resource.Exec.Session.{Session, new_session, start_exec, outward, Action, act, Reach}
use run_all_resource.Exec.Session.Schedule.{run, run-Reach}

-- a write of the command is read, and the command ends
schedule : StreamType → List ℕ → Option Error → List Action
schedule which bytes result =
    start_exec
    ∷ outward (command_writes which bytes)
    ∷ outward (pump_reads which)
    ∷ outward (stream_ends result)
    ∷ outward main_sends
    ∷ outward main_sends
    ∷ (elim result [ none ↦ [] | some _ ↦ outward main_sends ∷ [] ])

-- Whatever the command writes in a single write, to either stream, and however it ends: there is a
-- session in which that is all it wrote, handleOutput has read from it as much as one read takes,
-- StreamExec has returned, and the next move of handleOutput makes the program panic.
pub late_outputs_panic :
    (texts : Texts) (tty : Bool) (exec : PodExec) (which : StreamType) (b : ℕ) (bs : List ℕ)
    (result : Option Error)
    → (s : Session) × Reach texts (new_session tty (ok exec)) s
      × ((pipe_of which s.outbound).written ≡ b ∷ bs)
      × (s.outbound.main ≡ joining (ran result))
      × (act texts (outward (pump_sends which)) s ≡ panicked)
unfolding run schedule buffer_size
late_outputs_panic texts tty exec stdout b bs none =
    (_, run-Reach texts (schedule stdout (b ∷ bs) none) _ _ refl, refl, refl, refl)
late_outputs_panic texts tty exec stderr b bs none =
    (_, run-Reach texts (schedule stderr (b ∷ bs) none) _ _ refl, refl, refl, refl)
late_outputs_panic texts tty exec stdout b bs (some e) =
    (_, run-Reach texts (schedule stdout (b ∷ bs) (some e)) _ _ refl, refl, refl, refl)
late_outputs_panic texts tty exec stderr b bs (some e) =
    (_, run-Reach texts (schedule stderr (b ∷ bs) (some e)) _ _ refl, refl, refl, refl)
