-- ===== src/Mq/Consumer/Topology.antt =====
-- What the set up of the consumer in internal/server/mq.go leaves in the broker.
use run_all_resource.Mq.Consumer.Keeps.{KeepsTopology, text-runs, with_text-ok}
use mathlib.Core.Path.{subst, ap₂}
use run_all_resource.Prelude.{
  not, ◌&&◌, Bool-cases, inl, inr, String, ◌≡◌, ◌≢◌, refl, sym, ap, ◌∙◌, false, Option, some, List,
  [], arith, str_eq,
}
use run_all_resource.Go.{Texts, Result, ok, ◌>>=◌}
use run_all_resource.Mq.Config.{MqServer}
use run_all_resource.Mq.Consumer.{
  with_text, dead_letter_arguments, declare_dead_letters, declare_exchange, declare_queue,
  bind_queue, subscribe,
}
use run_all_resource.Mq.Broker.{
  Subscription, Broker, ServerState, direct_exchange, durable_queue, bind_to,
}

module _ {W : Type 0} {broker : Broker W} (texts : Texts)
    {args_of : String → W → Option (List (String × String))}
    {IsBound : String → String → String → W → Type 0}
    (keeps : KeepsTopology broker args_of IsBound) where
  pub dead_letters-IsBound :
      (s : MqServer) (w : W) (st : ServerState)
      → s.dlx_queue ≢ ""
      → (declare_dead_letters broker texts s (w, st)).0 ≡ ok tt
      → (w' : W) × (declare_dead_letters broker texts s (w, st) ≡ (ok tt, (w', st)))
        × IsBound s.dlx_exchange s.dlx_queue s.dlx_queue w'
  unfolding declare_dead_letters
  dead_letters-IsBound s w st named h =
      let bind_dlq = λ (dlq : String).
        with_text broker texts "DLQ queue bind failed"
          (broker.queue_bind (bind_to dlq s.dlx_queue s.dlx_exchange)) in
      let queue = durable_queue s.dlx_queue [] in
      let after_exchange = λ (u : Unit {0}).
        with_text broker texts "DLQ queue declare failed" (broker.queue_declare queue)
        >>= bind_dlq in
      let (u, ok1, e1) =
        text-runs broker texts "DLX exchange declare failed"
          (broker.exchange_declare (direct_exchange s.dlx_exchange)) after_exchange tt w st h in
      let w1 = (broker.exchange_declare (direct_exchange s.dlx_exchange) w).1 in
      let h1 = sym (ap (λ x. x.0) e1) ∙ h in
      let (dlq, ok2, e2) =
        text-runs broker texts "DLQ queue declare failed" (broker.queue_declare queue) bind_dlq tt
          w1 st h1 in
      let w2 = (broker.queue_declare queue w1).1 in
      let h2 = sym (ap (λ x. x.0) e2) ∙ h1 in
      let last = bind_to dlq s.dlx_queue s.dlx_exchange in
      let (ok3, e3) =
        with_text-ok broker texts "DLQ queue bind failed" (broker.queue_bind last) tt (w2, st) h2 in
      let whole = e1 ∙ e2 in
      let same : dlq ≡ s.dlx_queue = keeps.names queue w1 dlq ok2 named in
      (
        (broker.queue_bind last w2).1,
        whole ∙ ap₂ (λ r s. (r, s)) h2 e3,
        subst (λ q. IsBound s.dlx_exchange s.dlx_queue q (broker.queue_bind last w2).1) same
            (keeps.binds last w2 ok3),
      )

  -- what holds of bindings goes on to hold, and the queues keep their arguments
  abbrev pub BoundStay : W → W → Type 0
  BoundStay w w' = (e k q : String) → IsBound e k q w → IsBound e k q w'

  abbrev pub ArgsStay : W → W → Type 0
  ArgsStay w w' = (q : String) → args_of q w' ≡ args_of q w

  pub exchange-stays :
      (s : MqServer) (w : W) (st : ServerState)
      → (declare_exchange broker texts s (w, st)).0 ≡ ok tt
      → (w' : W) × (declare_exchange broker texts s (w, st) ≡ (ok tt, (w', st))) × BoundStay w w'
  unfolding declare_exchange
  exchange-stays s w st h = elim (Bool-cases (str_eq s.exchange "")) [
    | inl unnamed ↦ (w, (ground arith), (λ e k q b. b))
    | inr is_named ↦
        let x = direct_exchange s.exchange in
        let m = broker.exchange_declare x in
        let same : declare_exchange broker texts s (w, st)
            ≡ with_text broker texts "exchange declare failed" m (w, st) =
          ground arith in
        let h1 = sym (ap (λ y. y.0) same) ∙ h in
        let (done, after) = with_text-ok broker texts "exchange declare failed" m tt (w, st) h1 in
        ((m w).1, same ∙ ap₂ (λ r s. (r, s)) h1 after, keeps.exchange_keeps x w)
  ]

  pub queue-declared :
      (s : MqServer) (w : W) (st : ServerState) (name : String)
      → (declare_queue broker texts s (w, st)).0 ≡ ok name
      → (w' : W) × (declare_queue broker texts s (w, st)
          ≡ (ok name, (w', record st { config = record st.config { queue = name } })))
        × BoundStay w w'
        × (args_of name w' ≡ some (dead_letter_arguments s))
  unfolding declare_queue
  queue-declared s w st name h =
      let q = durable_queue s.queue (dead_letter_arguments s) in
      let rest = λ (n : String) (x : W × ServerState).
        let y : Result String × (W × ServerState) =
          (ok n, (x.0, record x.1 { config = record x.1.config { queue = n } })) in
        y in
      let (n, done, e1) =
        text-runs broker texts "queue declare failed" (broker.queue_declare q) rest name w st h in
      let same : n ≡ name = cc in
      (
        (broker.queue_declare q w).1,
        e1 ∙ ap (λ x. rest x ((broker.queue_declare q w).1, st)) same,
        keeps.queue_keeps q w,
        keeps.declares q w name (done ∙ ap ok same),
      )

  pub bind-stays :
      (s : MqServer) (name : String) (w : W) (st : ServerState)
      → (bind_queue broker texts s name (w, st)).0 ≡ ok tt
      → (w' : W) × (bind_queue broker texts s name (w, st) ≡ (ok tt, (w', st)))
        × BoundStay w w'
        × ArgsStay w w'
  unfolding bind_queue
  bind-stays s name w st h =
      elim (Bool-cases (not (str_eq s.exchange "") && not (str_eq s.routing_key ""))) [
        | inr unnamed ↦ (w, (ground arith), (λ e k q b. b), (λ q. refl))
        | inl is_named ↦
            let b = bind_to name s.routing_key s.exchange in
            let m = broker.queue_bind b in
            let same : bind_queue broker texts s name (w, st)
                ≡ with_text broker texts "queue bind failed" m (w, st) =
              ground arith in
            let h1 = sym (ap (λ y. y.0) same) ∙ h in
            let (done, after) = with_text-ok broker texts "queue bind failed" m tt (w, st) h1 in
            (
              (m w).1,
              same ∙ ap₂ (λ r s. (r, s)) h1 after,
              keeps.bind_keeps b w,
              keeps.bind_keeps_args b w,
            )
      ]

  pub subscribe-stays :
      (name : String) (w : W) (st : ServerState)
      → (subscribe broker texts name (w, st)).0 ≡ ok tt
      → let x = subscribe broker texts name (w, st) in
        BoundStay w x.1.0
        × ArgsStay w x.1.0
        × (x.1.1 ≡ record st { consumer_tag = "resource-consumer" })
  unfolding subscribe
  subscribe-stays name w st h =
      let c : Subscription = record {
        queue = name;
        tag = "resource-consumer";
        auto_ack = false;
        exclusive = false;
        no_local = false;
        no_wait = false;
      } in
      let rest = λ (u : Unit {0}) (x : W × ServerState).
        let (r, w') = broker.consume c x.0 in
        let y : Result (Unit {0}) × (W × ServerState) =
          (r, (w', record x.1 { consumer_tag = "resource-consumer" })) in
        y in
      let (u, done, e1) =
        text-runs broker texts "qos set failed" (broker.qos 1 0 false) rest tt w st h in
      let w1 = (broker.qos 1 0 false w).1 in
      let at_end : (subscribe broker texts name (w, st)).1.0 ≡ (broker.consume c w1).1 =
        ap (λ y. y.1.0) e1 in
      (
        (λ e k q b.
            subst (IsBound e k q) (sym at_end)
              (keeps.consume_keeps c w1 e k q (keeps.qos_keeps 1 0 false w e k q b))),
        (λ q.
            ap (args_of q) at_end
            ∙ keeps.consume_keeps_args c w1 q
            ∙ keeps.qos_keeps_args 1 0 false w q),
        ap (λ y. y.1.1) e1,
      )
