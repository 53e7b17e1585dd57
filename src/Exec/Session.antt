-- ===== src/Exec/Session.antt =====
-- A session of ExecContainer (internal/service/resource.go) as a whole: the checks, StreamExec of
-- internal/biz/resource.go and internal/data/exec.go, and the goroutines in any order.
pub mod Invariant
pub mod Results
pub mod Returns
pub mod Stuck
pub mod Unprepared
pub mod Schedule
pub mod Late
use run_all_resource.Prelude.{String, Bool, Option, none, some, ◌≡◌}
use run_all_resource.Go.{Texts, Result, ok, err, M, pure, attempt, of_result, ◌>>=◌}
use run_all_resource.Go.Channel.{Turn, moved, blocked, panicked, map_turn}
use run_all_resource.Biz.Repos.{ResourceUsecase}
use run_all_resource.Biz.Exec.{exec_options}
use run_all_resource.Service.Exec.{ExecRequest, ExecInit, admit}
use run_all_resource.Data.Exec.{PodExec, PodClient, prepare}
use run_all_resource.Exec.Inbound.{Inbound, new_inbound, start_handler, InAction, in_act}
use run_all_resource.Exec.Outbound.{begin, OutAction, out_act}
use run_all_resource.Exec.State.{Outbound, new_outbound}

-- `prepared` is what StreamExec finds before it starts its goroutines.
pub record Session : Type 0 where
  pub tty : Bool
  pub prepared : Result PodExec
  pub inbound : Inbound
  pub outbound : Outbound

abbrev pub new_session : Bool → Result PodExec → Session
new_session tty prepared = record {
  tty = tty;
  prepared = prepared;
  inbound = new_inbound;
  outbound = new_outbound;
}

-- the default of `containerName`
abbrev pub container_of : Option String → String
container_of none = ""
container_of (some name) = name

module _ {W : Type 0} (client : PodClient W) where
  -- StreamExec of the use case and of the repository, up to the start of the goroutines
  unfoldable pub prepare_exec : ExecInit → String → M W PodExec
  unfolding exec_options
  prepare_exec i namespace =
      of_result
        (exec_options namespace i.instance_id i.command i.tty (container_of i.container_name))
      >>= prepare client

module _ {W : Type 0} (texts : Texts) (uc : ResourceUsecase W) (client : PodClient W) where
  -- ExecContainer: the error that it returns at once, or the session that it starts
  unfoldable pub exec_container : Result ExecRequest → M W Session
  unfolding admit prepare_exec
  exec_container first = admit texts uc first >>= λ (i, namespace).
      attempt (prepare_exec client i namespace) >>= λ prepared. pure (new_session i.tty prepared)

-- A move of one goroutine, of the client or of the command.
pub data Action : Type 0 where
  start_exec : Action
  inward : InAction → Action
  outward : OutAction → Action

module _ (texts : Texts) where
  -- StreamExec goes on from its preparations: `go r.handleInput(…)` where they succeeded
  abbrev started : Result PodExec → Outbound → Session → Turn Session
  started (ok _) o s =
      map_turn (λ i. record s { inbound = i; outbound = o }) (start_handler s.inbound)
  started (err _) o s = moved (record s { outbound = o })

  unfoldable pub act : Action → Session → Turn Session
  unfolding begin start_handler in_act out_act
  act start_exec s = elim (begin s.prepared s.outbound) [
    | moved o ↦ started s.prepared o s
    | blocked ↦ blocked
    | panicked ↦ panicked
  ]
  act (inward a) s = map_turn (λ i. record s { inbound = i }) (in_act s.tty a s.inbound)
  act (outward a) s = map_turn (λ o. record s { outbound = o }) (out_act texts a s.outbound)

  -- the sessions that come from `s` by any moves in any order
  pub data Reach (s : Session) : Session → Type 0 where
    here : Reach s s
    later : {t u : Session} → Reach s t → (a : Action) → act a t ≡ moved u → Reach s u
