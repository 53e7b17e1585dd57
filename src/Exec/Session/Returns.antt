-- ===== src/Exec/Session/Returns.antt =====
-- The end of a session: the return of ExecContainer of internal/service/resource.go, and how much its
-- goroutines still have to do.
use run_all_resource.Prelude.{
  ℕ, zero, suc, ◌+◌, ◌*◌, ◌<◌, ◌≡◌, ◌≢◌, inl, inr, Bool, true, false, none, some, List, [], ◌∷◌,
  arith, length, length-append, Bool-cases,
}
use run_all_resource.Go.{Texts, Result}
use run_all_resource.Go.Channel.{moved, blocked, panicked, Turn-moved, receive-cases}
use run_all_resource.Data.Exec.{PodExec}
use run_all_resource.Exec.Outbound.{
  OutAction, main_sends, next_output, response_sent, forwarder_reports, main_joins, out_act,
  end_session, take_output, send_response, report_result, join,
}
use run_all_resource.Exec.State.{
  Ending, ran, Main, preparing, streaming, reporting, exiting, closing, joining, returned,
  Forwarder, ranging, responding, reporting_failure, reporting_success, gone, Outbound,
}
use run_all_resource.Exec.Outbound.Views.{OutInv}
use run_all_resource.Exec.Outbound.Moves.{message}
use run_all_resource.Exec.Outbound.Streams.{out_act-Inv, out_act-panicked}
use run_all_resource.Exec.Session.{Session, new_session, Reach}
use run_all_resource.Exec.Session.Invariant.{SessionInv, Reach-SessionInv}

-- the moves of the two goroutines of ExecContainer, where the client takes each response
abbrev pub is_closing : OutAction → Bool
is_closing main_sends = true
is_closing next_output = true
is_closing (response_sent none) = true
is_closing forwarder_reports = true
is_closing main_joins = true
is_closing _ = false

-- However those moves are ordered, they come to an end, in which ExecContainer has returned no error.
pub data Returns (texts : Texts) : Outbound → Type 0 where
  back : {s : Outbound} (ending : Ending) → s.main ≡ returned ending none → Returns texts s
  goes_on :
      {s : Outbound} (a : OutAction) (t : Outbound)
      → is_closing a ≡ true
      → out_act texts a s ≡ moved t
      → ((b : OutAction) (u : Outbound)
          → is_closing b ≡ true
          → out_act texts b s ≡ moved u
          → Returns texts u)
      → Returns texts s

abbrev main_weight : Main → ℕ
main_weight preparing = 11
main_weight streaming = 11
main_weight (reporting _) = 8
main_weight (exiting _) = 5
main_weight (closing _) = 2
main_weight (joining _) = 1
main_weight (returned _ _) = 0

abbrev forwarder_weight : Forwarder → ℕ
forwarder_weight ranging = 2
forwarder_weight (responding _) = 3
forwarder_weight (reporting_failure _ _) = 1
forwarder_weight reporting_success = 1
forwarder_weight (gone _) = 0

abbrev weight : Outbound → ℕ
weight s = main_weight s.main + forwarder_weight s.forwarder + 2 * length s.outputs.items

-- StreamWithContext has returned, or it was never called.
abbrev pub has_ended : Main → Bool
has_ended preparing = false
has_ended streaming = false
has_ended _ = true

abbrev pub serves : Forwarder → Bool
serves (reporting_failure _ _) = false
serves (gone (some _)) = false
serves _ = true

abbrev has_returned : Main → Bool
has_returned (returned _ _) = true
has_returned _ = false

-- a move that is always possible
abbrev next_if : Bool → OutAction
next_if true = next_output
next_if false = main_sends

abbrev ending_of : Main → Ending
ending_of (returned ending _) = ending
ending_of _ = ran none

abbrev is_empty : {A : Type 0} → List A → Bool
is_empty [] = true
is_empty (_ ∷ _) = false

abbrev next_action : Outbound → OutAction
next_action s = elim s.forwarder [
  | responding _ ↦ response_sent none
  | ranging ↦ elim (is_empty s.outputs.items) [
    | true ↦ next_if s.outputs.closed
    | false ↦ next_output
  ]
  | reporting_success ↦ forwarder_reports
  | _ ↦ main_joins
]

module _ (texts : Texts) where
  weight-decreases :
      (a : OutAction) (s t : Outbound)
      → is_closing a ≡ true
      → out_act texts a s ≡ moved t
      → weight t < weight s
  unfolding out_act end_session take_output send_response report_result join
  weight-decreases main_sends s t c h =
      ground (arith, length-append s.outputs.items (message texts s.main ∷ []))
  weight-decreases next_output s t c h = elim (receive-cases s.outputs) [
    | inl some_left ↦ ground arith
    | inr none_left ↦ ground arith
  ]
  weight-decreases (response_sent none) s t c h = ground arith
  weight-decreases forwarder_reports s t c h = ground arith
  weight-decreases main_joins s t c h = elim (receive-cases s.err_chan) [
    | inl some_left ↦ ground arith
    | inr none_left ↦ ground arith
  ]
  weight-decreases _ s t c h = cc

  closing-keeps :
      (a : OutAction) (s t : Outbound)
      → is_closing a ≡ true
      → out_act texts a s ≡ moved t
      → has_ended s.main ≡ true
      → serves s.forwarder ≡ true
      → (has_ended t.main ≡ true) × (serves t.forwarder ≡ true)
  unfolding out_act end_session take_output send_response report_result join
  closing-keeps main_sends s t c h ended on = ground arith
  closing-keeps next_output s t c h ended on = elim (receive-cases s.outputs) [
    | inl some_left ↦ ground arith
    | inr none_left ↦ ground arith
  ]
  closing-keeps (response_sent none) s t c h ended on = ground arith
  closing-keeps forwarder_reports s t c h ended on = ground arith
  closing-keeps main_joins s t c h ended on = elim (receive-cases s.err_chan) [
    | inl some_left ↦ ground arith
    | inr none_left ↦ ground arith
  ]
  closing-keeps _ s t c h ended on = cc

  module _ (s : Outbound) (inv : OutInv texts s) (ended : has_ended s.main ≡ true)
      (on : serves s.forwarder ≡ true) where
    next_action-moves : has_returned s.main ≡ false → out_act texts (next_action s) s ≢ blocked
    unfolding out_act end_session take_output send_response report_result join
    next_action-moves h = ground arith

    next_action-closing : (is_closing (next_action s) ≡ true)
    next_action-closing = ground arith

    next_action-calm : out_act texts (next_action s) s ≢ panicked
    next_action-calm h =
        let (which, same, _, _) = out_act-panicked texts (next_action s) s inv h in
        ground (arith, next_action-closing)

    returned-none : has_returned s.main ≡ true → s.main ≡ returned (ending_of s.main) none
    returned-none h = ground arith

  weight-Returns :
      (n : ℕ) (s : Outbound)
      → weight s < n
      → OutInv texts s
      → has_ended s.main ≡ true
      → serves s.forwarder ≡ true
      → Returns texts s
  weight-Returns zero s few inv ended on = absurd (omega arith)
  weight-Returns (suc n) s few inv ended on = elim (Bool-cases (has_returned s.main)) [
    | inl there ↦ back (ending_of s.main) (returned-none s inv ended on there)
    | inr not_yet ↦
        let (t, moves) =
          Turn-moved (out_act texts (next_action s) s) (next_action-moves s inv ended on not_yet)
            (next_action-calm s inv ended on) in
        goes_on (next_action s) t (next_action-closing s inv ended on) moves (λ b u c h.
          let (ended', on') = closing-keeps b s u c h ended on in
          weight-Returns n u (omega (arith, weight-decreases b s u c h))
            (out_act-Inv texts b s u inv h) ended' on')
  ]

-- In every session that is reached from the start, once StreamExec has called StreamWithContext and it has
-- returned, or has failed before that, and as long as no Send to the client has failed, ExecContainer
-- returns without an error: whichever of its two goroutines moves first, where the client takes each response,
-- their moves come to an end, and there one of them can always move until ExecContainer has returned.
pub Reach-Returns :
    (texts : Texts) {tty : Bool} {prepared : Result PodExec} {s : Session}
    → Reach texts (new_session tty prepared) s
    → has_ended s.outbound.main ≡ true
    → serves s.outbound.forwarder ≡ true
    → Returns texts s.outbound
unfolding SessionInv
Reach-Returns texts {s = s} r ended on =
    weight-Returns texts (suc (weight s.outbound)) s.outbound (omega arith)
      (Reach-SessionInv texts r).1 ended on
