-- ===== src/Exec/Session/Stuck.antt =====
-- Sessions of internal/service/resource.go and internal/data/exec.go in which a goroutine waits.
use mathlib.Core.Path.{subst}
use run_all_resource.Prelude.{ℕ, ◌≡◌, ◌≤◌, refl, Bool, true, false, none, some, List, arith, length}
use run_all_resource.Go.{Texts, ok, err}
use run_all_resource.Go.Channel.{moved, map_turn-moved}
use run_all_resource.Service.Exec.{stdout, stderr}
use run_all_resource.Data.Exec.{TerminalSize}
use run_all_resource.Exec.Inbound.{
  capacity, resizing, Inbound, recv, push_input, start_handler, take_input, read_stdin, fail_write,
  push_size, next_size, InAction, recv_request, send_input, handle_next, stdin_read, stdin_fails,
  send_size, ask_size, in_act,
}
use run_all_resource.Exec.Outbound.{
  OutAction, command_writes, pump_reads, pump_sends, stream_ends, main_sends, next_output,
  response_sent, forwarder_reports, main_joins, out_act, begin, write_pipe, read_pipe, push_output,
  end_stream, end_session, take_output, send_response, report_result, join,
}
use run_all_resource.Exec.State.{
  Main, streaming, reporting, exiting, Forwarder, reporting_failure, gone, Outbound,
}
use run_all_resource.Exec.Session.{
  Session, Action, inward, outward, start_exec, act, Reach, here, later,
}

-- handleInput sends a size on a full queue that nobody reads.
record Jammed (z : TerminalSize) (read : List ℕ) (i : Inbound) : Type 0 where
  waits : i.handler ≡ resizing z
  full : capacity ≤ length i.size_queue.items
  kept : i.stdin ≡ read

in_act-Jammed :
    (z : TerminalSize) (read : List ℕ) (a : InAction) (i j : Inbound)
    → Jammed z read i
    → in_act false a i ≡ moved j
    → Jammed z read j
unfolding in_act recv push_input take_input read_stdin fail_write push_size next_size
in_act-Jammed z read (recv_request (ok r)) i j m h = ground arith
in_act-Jammed z read (recv_request (err e)) i j m h = ground arith
in_act-Jammed z read send_input i j m h = ground arith
in_act-Jammed z read handle_next i j m h = ground arith
in_act-Jammed z read (stdin_read n) i j m h = ground arith
in_act-Jammed z read stdin_fails i j m h = ground arith
in_act-Jammed z read send_size i j m h = ground arith
in_act-Jammed z read ask_size i j m h = ground arith

record JammedSession (z : TerminalSize) (read : List ℕ) (s : Session) : Type 0 where
  no_terminal : s.tty ≡ false
  jam : Jammed z read s.inbound

-- The output goroutine has given up, and StreamExec sends on a full channel that nobody reads.
abbrev pub has_failed : Forwarder → Bool
has_failed (reporting_failure _ _) = true
has_failed (gone (some _)) = true
has_failed _ = false

abbrev pub in_stream_exec : Main → Bool
in_stream_exec streaming = true
in_stream_exec (reporting _) = true
in_stream_exec (exiting _) = true
in_stream_exec _ = false

record Clogged (o : Outbound) : Type 0 where
  failed : has_failed o.forwarder ≡ true
  full : capacity ≤ length o.outputs.items
  inside : in_stream_exec o.main ≡ true

out_act-Clogged :
    (texts : Texts) (a : OutAction) (s t : Outbound)
    → Clogged s
    → out_act texts a s ≡ moved t
    → Clogged t
unfolding out_act write_pipe read_pipe push_output end_stream end_session take_output send_response
    report_result join
out_act-Clogged texts (command_writes stdout bytes) s t q h = ground arith
out_act-Clogged texts (command_writes stderr bytes) s t q h = ground arith
out_act-Clogged texts (pump_reads stdout) s t q h = ground arith
out_act-Clogged texts (pump_reads stderr) s t q h = ground arith
out_act-Clogged texts (pump_sends stdout) s t q h = ground arith
out_act-Clogged texts (pump_sends stderr) s t q h = ground arith
out_act-Clogged texts (stream_ends none) s t q h = ground arith
out_act-Clogged texts (stream_ends (some e)) s t q h = ground arith
out_act-Clogged texts main_sends s t q h = ground arith
out_act-Clogged texts next_output s t q h = ground arith
out_act-Clogged texts (response_sent answer) s t q h = ground arith
out_act-Clogged texts forwarder_reports s t q h = ground arith
out_act-Clogged texts main_joins s t q h = ground arith

module _ (texts : Texts) where
  act-JammedSession :
      (z : TerminalSize) (read : List ℕ) (a : Action) (s t : Session)
      → JammedSession z read s
      → act texts a s ≡ moved t
      → JammedSession z read t
  unfolding act start_handler
  act-JammedSession z read (inward a) s t j h =
      let (i, moves, same) = map_turn-moved _ _ t h in
      subst (JammedSession z read) same (record {
        no_terminal = j.no_terminal;
        jam =
            in_act-Jammed z read a s.inbound i j.jam
              (subst (λ tty. in_act tty a s.inbound ≡ moved i) j.no_terminal moves);
      })
  act-JammedSession z read (outward a) s t j h =
      let (o, moves, same) = map_turn-moved _ _ t h in
      subst (JammedSession z read) same (record { no_terminal = j.no_terminal; jam = j.jam })
  act-JammedSession z read start_exec s t j h = ground arith

  Reach-JammedSession :
      (z : TerminalSize) (read : List ℕ) {s t : Session}
      → JammedSession z read s
      → Reach texts s t
      → JammedSession z read t
  Reach-JammedSession z read j here = j
  Reach-JammedSession z read j (later {t} {u} r a h) =
      act-JammedSession z read a t u (Reach-JammedSession z read j r) h

  act-Clogged :
      (a : Action) (s t : Session)
      → Clogged s.outbound
      → act texts a s ≡ moved t
      → Clogged t.outbound
  unfolding act begin
  act-Clogged (inward a) s t c h =
      let (i, moves, same) = map_turn-moved _ _ t h in subst (λ u. Clogged u.outbound) same c
  act-Clogged (outward a) s t c h =
      let (o, moves, same) = map_turn-moved _ _ t h in
      subst (λ u. Clogged u.outbound) same (out_act-Clogged texts a s.outbound o c moves)
  act-Clogged start_exec s t c h = ground arith

  Reach-Clogged : {s t : Session} → Clogged s.outbound → Reach texts s t → Clogged t.outbound
  Reach-Clogged c here = c
  Reach-Clogged c (later {t} {u} r a h) = act-Clogged a t u (Reach-Clogged c r) h

-- Without a terminal nothing takes sizes out of their queue: once handleInput has a size to add and ten
-- wait, it stays there whatever happens, and the command reads no more of its standard input.
pub resizes_block_stdin :
    (texts : Texts) {s t : Session} {z : TerminalSize}
    → s.tty ≡ false
    → s.inbound.handler ≡ resizing z
    → capacity ≤ length s.inbound.size_queue.items
    → Reach texts s t
    → (t.inbound.handler ≡ resizing z) × (t.inbound.stdin ≡ s.inbound.stdin)
resizes_block_stdin texts {s} {t} {z} no_terminal waits full r =
    let j =
      Reach-JammedSession texts z s.inbound.stdin
        (record {
          no_terminal = no_terminal;
          jam = record { waits = waits; full = full; kept = refl };
        })
        r in
    (j.jam.waits, j.jam.kept)

-- Once the output goroutine has given up on the client while ten outputs wait and StreamExec has not yet
-- sent the exit, StreamExec never returns, whatever happens, and so neither does ExecContainer.
pub unread_outputs_block :
    (texts : Texts) {s t : Session}
    → has_failed s.outbound.forwarder ≡ true
    → capacity ≤ length s.outbound.outputs.items
    → in_stream_exec s.outbound.main ≡ true
    → Reach texts s t
    → in_stream_exec t.outbound.main ≡ true
unread_outputs_block texts failed full inside r =
    (Reach-Clogged texts (record { failed = failed; full = full; inside = inside }) r).inside
