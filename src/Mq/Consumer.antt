-- ===== src/Mq/Consumer.antt =====
-- Start and Stop of internal/server/mq.go over the calls of the amqp library. The fields of MQServer that
-- they change stand beside the state of the world.
pub mod Serial
pub mod Keeps
pub mod Topology
pub mod DeadLetters
use run_all_resource.Mq.Broker.{
  Binding, Broker, Event, Exchange, Queue, ServerState, Subscription, bind_to, channel_closed,
  context_done, deliveries_closed, delivery, direct_exchange, durable_queue,
}
use run_all_resource.Prelude.{
  ℕ, String, append, Bool, true, false, ◌&&◌, not, Option, none, some, List, [], ◌∷◌, str_eq,
  if◌then◌else◌,
}
use run_all_resource.Go.{
  Error, Sentinel, plain, sentinel, amqp_closed, Texts, error_text, Result, ok, err, M, pure, fail,
  attempt, ignore, on_error, ◌>>=◌, ◌>>◌,
}
use run_all_resource.Mq.Config.{MqServer}
use run_all_resource.Mq.Delivery.{Delivery, Outcome, Acknowledger, process_message}

unfoldable pub dead_letter_arguments : MqServer → List (String × String)
dead_letter_arguments s =
    ("x-dead-letter-exchange", s.dlx_exchange) ∷ ("x-dead-letter-routing-key", s.dlx_queue) ∷ []

unfoldable pub is_closed : Error → Bool
is_closed (sentinel amqp_closed) = true
is_closed _ = false

module _ {W : Type 0} where
  abbrev on_broker : {A : Type 0} → M W A → M (W × ServerState) A
  on_broker m (w, s) = let (r, w') = m w in (r, (w', s))

  abbrev change : (ServerState → ServerState) → M (W × ServerState) (Unit {0})
  change f (w, s) = (ok tt, (w, f s))

  abbrev state : M (W × ServerState) ServerState
  state (w, s) = (ok s, (w, s))

module _ {W : Type 0} (broker : Broker W) (texts : Texts) where
  -- `fmt.Errorf("message: %v", err)`, which does not wrap the error
  abbrev with_text : {A : Type 0} → String → M W A → M (W × ServerState) A
  with_text message m =
      on_broker (on_error (λ e. plain (append message (append ": " (error_text texts e)))) m)

  pub declare_dead_letters : MqServer → M (W × ServerState) (Unit {0})
  declare_dead_letters s = do
    with_text "DLX exchange declare failed"
        (broker.exchange_declare (direct_exchange s.dlx_exchange))
    dlq ← with_text "DLQ queue declare failed" (broker.queue_declare (durable_queue s.dlx_queue []))
    with_text "DLQ queue bind failed" (broker.queue_bind (bind_to dlq s.dlx_queue s.dlx_exchange))

  pub declare_exchange : MqServer → M (W × ServerState) (Unit {0})
  declare_exchange s =
      let declare =
        with_text "exchange declare failed"
          (broker.exchange_declare (direct_exchange s.exchange)) in
      if str_eq s.exchange "" then pure tt else declare

  -- gives the name of the queue, which is stored too
  pub declare_queue : MqServer → M (W × ServerState) String
  declare_queue s = do
    name ←
        with_text "queue declare failed"
          (broker.queue_declare (durable_queue s.queue (dead_letter_arguments s)))
    change (λ st. record st { config = record st.config { queue = name } })
    pure name

  pub bind_queue : MqServer → String → M (W × ServerState) (Unit {0})
  bind_queue s name =
      let bind =
        with_text "queue bind failed" (broker.queue_bind (bind_to name s.routing_key s.exchange)) in
      if not (str_eq s.exchange "") && not (str_eq s.routing_key "") then bind else pure tt

  pub subscribe : String → M (W × ServerState) (Unit {0})
  subscribe name = do
    with_text "qos set failed" (broker.qos 1 0 false)
    change (λ st. record st { consumer_tag = "resource-consumer" })
    on_broker (
        broker.consume (record {
          queue = name;
          tag = "resource-consumer";
          auto_ack = false;
          exclusive = false;
          no_local = false;
          no_wait = false;
        }))

  -- Start up to its loop
  unfoldable pub set_up : M (W × ServerState) (Unit {0})
  unfolding declare_dead_letters declare_exchange declare_queue bind_queue subscribe
  set_up = do
    st ← state
    with_text "failed to open channel" broker.open_channel
    change (λ st. record st { has_channel = true })
    declare_dead_letters st.config
    declare_exchange st.config
    name ← declare_queue st.config
    bind_queue st.config name
    subscribe name

  after_close : Result (Unit {0}) → M (W × ServerState) (Unit {0})
  after_close (ok _) = pure tt
  after_close (err e) = if is_closed e then pure tt else fail e

  cancel_tag : String → M (W × ServerState) (Unit {0})
  cancel_tag tag =
      let cancel = ignore (on_broker (broker.cancel tag false)) in
      if str_eq tag "" then pure tt else cancel

  stop_open : M (W × ServerState) (Unit {0})
  stop_open = do
    st ← state
    cancel_tag st.consumer_tag
    closed ← attempt (on_broker broker.close)
    after_close closed

  unfoldable pub stop : M (W × ServerState) (Unit {0})
  unfolding stop_open after_close cancel_tag
  stop = do st ← state; if st.has_channel then stop_open else pure tt

  -- `none` says that the loop is waiting for its next event
  unfoldable pub serve :
      (List ℕ → W → Outcome × W)
      → (Delivery → Acknowledger W)
      → ℕ
      → String
      → List Event
      → W
      → Option (Result (Unit {0})) × W
  serve handle acknowledger max_retries tag [] w = (none, w)
  serve handle acknowledger max_retries tag (context_done ∷ events) w =
      (some (ok tt), (broker.cancel tag false w).1)
  serve handle acknowledger max_retries tag (channel_closed none ∷ events) w = (some (ok tt), w)
  serve handle acknowledger max_retries tag (channel_closed (some e) ∷ events) w =
      (some (err (plain (append "mq channel closed: " (error_text texts e)))), w)
  serve handle acknowledger max_retries tag (deliveries_closed ∷ events) w = (some (ok tt), w)
  serve handle acknowledger max_retries tag (delivery d ∷ events) w =
      serve handle acknowledger max_retries tag events
        (process_message texts max_retries handle (acknowledger d) d w)

-- Without a connection, Start only waits for the end of the context.
unfoldable pub wait_for_end : List Event → Option (Result (Unit {0}))
wait_for_end [] = none
wait_for_end (context_done ∷ events) = some (ok tt)
wait_for_end (channel_closed e ∷ events) = wait_for_end events
wait_for_end (delivery d ∷ events) = wait_for_end events
wait_for_end (deliveries_closed ∷ events) = wait_for_end events

module _ {W : Type 0} (texts : Texts) (handle : List ℕ → W → Outcome × W)
    (acknowledger : Delivery → Acknowledger W) where
  serve_after :
      Broker W
      → List Event
      → Result (Unit {0}) × (W × ServerState)
      → Option (Result (Unit {0})) × (W × ServerState)
  serve_after broker events (err e, s) = (some (err e), s)
  serve_after broker events (ok _, (w, st)) =
      let (r, w') =
        serve broker texts handle acknowledger st.config.max_retries st.consumer_tag events w in
      (r, (w', st))

  unfoldable pub start :
      Option (Broker W)
      → List Event
      → W × ServerState
      → Option (Result (Unit {0})) × (W × ServerState)
  unfolding serve_after
  start none events s = (wait_for_end events, s)
  start (some broker) events s = serve_after broker events (set_up broker texts s)
