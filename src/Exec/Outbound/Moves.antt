-- ===== src/Exec/Outbound/Moves.antt =====
-- What the moves of the goroutines of internal/data/exec.go and internal/service/resource.go change of
-- what is on its way to the client.
use mathlib.Core.List.{append-nil, append_assoc, map-append}
use run_all_resource.Prelude.{
  ℕ, ◌≤◌, ◌<◌, ◌≡◌, ◌≢◌, refl, sym, ap, ◌∙◌, Bool, true, false, Option, none, some, List, [], ◌∷◌,
  ◌++◌, map, arith, length, length-append,
}
use run_all_resource.Go.{Error, Texts}
use run_all_resource.Go.Channel.{moved}
use run_all_resource.Biz.Types.{ExecOutput, exec_output_data}
use run_all_resource.Service.Exec.{StreamType, stdout, stderr, ExecResponse, output, response_of}
use run_all_resource.Exec.Inbound.{capacity}
use run_all_resource.Exec.Outbound.{
  data_output, push_output, error_output, exit_output, end_session, send_response,
}
use run_all_resource.Exec.State.{
  reading, holding, Main, preparing, reporting, exiting, Outbound, pipe_of,
}
use run_all_resource.Exec.Outbound.Views.{
  bytes_on-append, endings_in-append, has_closed, held, in_pump, on_way, result_given, result_taken,
  succeeds, bytes_on, endings_in, messages_of, messages_so_far,
}

-- an output that joins the channel comes behind all that is on its way
pub on_way-push :
    (sent : List ExecResponse) (queued items : List ExecOutput) (o : ExecOutput)
    → sent ++ map response_of (queued ++ (items ++ o ∷ []))
      ≡ (sent ++ map response_of (queued ++ items)) ++ response_of o ∷ []
on_way-push sent queued items o =
    ap (λ l. sent ++ map response_of l) (sym (append_assoc queued items (o ∷ [])))
    ∙ ap (◌++◌ sent) (map-append response_of (queued ++ items) (o ∷ []))
    ∙ sym (append_assoc sent (map response_of (queued ++ items)) (response_of o ∷ []))

-- what an output adds to all that is on its way, where it joins the channel
pub record Enqueued (o : ExecOutput) (s t : Outbound) : Type 0 where
  pub open_before : s.outputs.closed ≡ false
  pub had_room : length s.outputs.items < capacity
  pub items : t.outputs.items ≡ s.outputs.items ++ o ∷ []
  pub still_open : t.outputs.closed ≡ false
  pub sent : t.sent ≡ s.sent
  pub forwarder : t.forwarder ≡ s.forwarder
  pub err_chan : t.err_chan ≡ s.err_chan

module _ {o : ExecOutput} {s t : Outbound} (q : Enqueued o s t) where
  pub on_way-enqueued : on_way t ≡ on_way s ++ response_of o ∷ []
  on_way-enqueued =
      rw (q.sent, q.forwarder, q.items) (on_way-push s.sent (held s.forwarder) s.outputs.items o)

  pub bytes_on-enqueued :
      (which : StreamType)
      → bytes_on which (on_way t) ≡ bytes_on which (on_way s) ++ bytes_on which (response_of o ∷ [])
  bytes_on-enqueued which = rw on_way-enqueued (bytes_on-append which (on_way s) _)

  pub endings_in-enqueued :
      endings_in (on_way t) ≡ endings_in (on_way s) ++ endings_in (response_of o ∷ [])
  endings_in-enqueued = rw on_way-enqueued (endings_in-append (on_way s) _)

pub response_of-data :
    (which : StreamType) (bytes : List ℕ)
    → response_of (data_output which bytes) ≡ output which bytes
unfolding response_of
response_of-data stdout bytes = refl
response_of-data stderr bytes = refl

-- A response moves from the way to the client.
pub record Responded (s t : Outbound) : Type 0 where
  pub on_way_kept : on_way t ≡ on_way s
  pub main : t.main ≡ s.main
  pub out : t.out ≡ s.out
  pub err : t.err ≡ s.err
  pub outputs : t.outputs ≡ s.outputs
  pub err_chan : t.err_chan ≡ s.err_chan
  pub no_result : (result_given s.forwarder ≡ []) × (result_given t.forwarder ≡ [])
  pub no_success : succeeds t.forwarder ≡ false

pub send_response-Responded :
    (s t : Outbound) (answer : Option Error) → send_response answer s ≡ moved t → Responded s t
unfolding send_response
send_response-Responded s t none h = ground (
  arith,
  append_assoc s.sent (map response_of (held s.forwarder)) (map response_of s.outputs.items),
)
send_response-Responded s t (some e) h = ground arith

abbrev pub other : StreamType → StreamType
other stdout = stderr
other stderr = stdout

module _ {s t : Outbound} where
  -- what the client is to get, where an output of a stream joins
  pub data-Enqueued :
      (which : StreamType) (bytes : List ℕ)
      → Enqueued (data_output which bytes) s t
      → (bytes_on which (on_way t) ≡ bytes_on which (on_way s) ++ bytes)
        × (bytes_on (other which) (on_way t) ≡ bytes_on (other which) (on_way s))
        × (endings_in (on_way t) ≡ endings_in (on_way s))
        × (length t.outputs.items ≤ capacity)
  unfolding bytes_on endings_in
  data-Enqueued stdout bytes q = (
    rw (bytes_on-enqueued q stdout, response_of-data stdout bytes, append-nil bytes) refl,
    rw (bytes_on-enqueued q stderr, response_of-data stdout bytes) (append-nil _),
    rw (endings_in-enqueued q, response_of-data stdout bytes) (append-nil _),
    ground (arith, length-append s.outputs.items (data_output stdout bytes ∷ [])),
  )
  data-Enqueued stderr bytes q = (
    rw (bytes_on-enqueued q stderr, response_of-data stderr bytes, append-nil bytes) refl,
    rw (bytes_on-enqueued q stdout, response_of-data stderr bytes) (append-nil _),
    rw (endings_in-enqueued q, response_of-data stderr bytes) (append-nil _),
    ground (arith, length-append s.outputs.items (data_output stderr bytes ∷ [])),
  )

  -- the same where an output about the end joins
  pub ending-Enqueued :
      (o : ExecOutput)
      → o.type ≢ exec_output_data
      → Enqueued o s t
      → ((which : StreamType) → bytes_on which (on_way t) ≡ bytes_on which (on_way s))
        × (endings_in (on_way t) ≡ endings_in (on_way s) ++ response_of o ∷ [])
        × (length t.outputs.items ≤ capacity)
  unfolding bytes_on endings_in response_of
  ending-Enqueued o no_data q = (
    (λ which. bytes_on-enqueued q which ∙ ground (arith, append-nil (bytes_on which (on_way s)))),
    endings_in-enqueued q ∙ ground arith,
    ground (arith, length-append s.outputs.items (o ∷ [])),
  )

-- A goroutine of handleOutput hands over what it has read.
pub record Pushed (which : StreamType) (bytes : List ℕ) (s t : Outbound) : Type 0 where
  pub enqueued : Enqueued (data_output which bytes) s t
  pub main : t.main ≡ s.main
  pub full : (pipe_of which s).pump ≡ holding bytes
  pub emptied : pipe_of which t ≡ record (pipe_of which s) { pump = reading }
  pub beside : pipe_of (other which) t ≡ pipe_of (other which) s

pub push_output-Pushed :
    (s t : Outbound) (which : StreamType)
    → push_output which s ≡ moved t
    → Pushed which (in_pump (pipe_of which s).pump) s t
unfolding push_output
push_output-Pushed s t stdout h = ground arith
push_output-Pushed s t stderr h = ground arith

-- The goroutine of ExecContainer sends what `messages_so_far` then counts.
pub record Ended (texts : Texts) (o : ExecOutput) (s t : Outbound) : Type 0 where
  pub enqueued : Enqueued o s t
  pub no_data : o.type ≢ exec_output_data
  pub grows : messages_so_far texts t.main ≡ messages_so_far texts s.main ++ response_of o ∷ []
  pub started : t.main ≢ preparing
  pub open_main : (has_closed s.main ≡ false) × (has_closed t.main ≡ false)
  pub no_result : (result_taken s.main ≡ []) × (result_taken t.main ≡ [])
  pub out : t.out ≡ s.out
  pub err : t.err ≡ s.err

abbrev pub sends : Main → Bool
sends (reporting _) = true
sends (exiting _) = true
sends _ = false

abbrev pub message : Texts → Main → ExecOutput
message texts (reporting e) = error_output texts e
message texts (exiting result) = exit_output result
message texts _ = exit_output none

pub end_session-Ended :
    (texts : Texts) (s t : Outbound)
    → sends s.main ≡ true
    → end_session texts s ≡ moved t
    → Ended texts (message texts s.main) s t
unfolding end_session messages_so_far messages_of response_of
end_session-Ended texts s t h e = ground arith
