-- ===== src/Mq/Consumer/DeadLetters.antt =====
-- Where the messages go that the consumer drops.
use run_all_resource.Prelude.{
  String, ◌≡◌, ◌≢◌, refl, sym, ap, ◌∙◌, true, Option, some, List, [], ◌∷◌,
}
use run_all_resource.Go.{Texts, Result, ok, M, bind-ok, ◌>>=◌, ◌>>◌}
use run_all_resource.Mq.Config.{MqServer}
use run_all_resource.Mq.Consumer.{
  dead_letter_arguments, declare_dead_letters, declare_exchange, declare_queue, bind_queue,
  subscribe, set_up,
}
use run_all_resource.Mq.Broker.{Broker, ServerState}
use run_all_resource.Mq.Consumer.Topology.{
  dead_letters-IsBound, exchange-stays, queue-declared, bind-stays, subscribe-stays,
}
use run_all_resource.Mq.Consumer.Keeps.{KeepsTopology, Step, text-runs}

continues :
    {S A B : Type 0} (m : M S A) (f : A → M S B) (s s' : S) (a : A)
    → m s ≡ (ok a, s')
    → (m >>= f) s ≡ f a s'
continues {S} {A} {B} m f s s' a runs = ap (λ (x : Result A × S). ((λ (t : S). x) >>= f) s) runs

module _ {W : Type 0} {broker : Broker W} (texts : Texts)
    {args_of : String → W → Option (List (String × String))}
    {IsBound : String → String → String → W → Type 0}
    (keeps : KeepsTopology broker args_of IsBound) where
  -- what holds of the broker and of the fields where the set up of `c` has succeeded
  abbrev IsSetUp : MqServer → ServerState → W × ServerState → Type 0
  IsSetUp c st (w', st') =
      (args_of st'.config.queue w' ≡ some (dead_letter_arguments c))
      × IsBound c.dlx_exchange c.dlx_queue c.dlx_queue w'
      × (st'.has_channel ≡ st.has_channel)
      × (st'.consumer_tag ≡ "resource-consumer")

  abbrev bind_and_subscribe : MqServer → String → Step broker texts (Unit {0})
  bind_and_subscribe c name = bind_queue broker texts c name >> subscribe broker texts name

  abbrev from_queue : MqServer → Step broker texts (Unit {0})
  from_queue c = declare_queue broker texts c >>= bind_and_subscribe c

  abbrev from_exchange : MqServer → Step broker texts (Unit {0})
  from_exchange c = declare_exchange broker texts c >> from_queue c

  subscribed-IsSetUp :
      (c : MqServer) (w : W) (st : ServerState)
      → args_of st.config.queue w ≡ some (dead_letter_arguments c)
      → IsBound c.dlx_exchange c.dlx_queue c.dlx_queue w
      → (bind_and_subscribe c st.config.queue (w, st)).0 ≡ ok tt
      → IsSetUp c st (bind_and_subscribe c st.config.queue (w, st)).1
  subscribed-IsSetUp c w st args bound h =
      let name = st.config.queue in
      let next = λ (u : Unit {0}). subscribe broker texts name in
      let (u, done, more) = bind-ok (bind_queue broker texts c name) next (w, st) tt h in
      let (w', ran, stay, same_args) = bind-stays texts keeps c name w st done in
      let e = continues (bind_queue broker texts c name) next (w, st) (w', st) tt ran in
      let (stay', same_args', fields) =
        subscribe-stays texts keeps name w' st (sym (ap (λ y. y.0) e) ∙ h) in
      rw e (
        rw fields
          (same_args' name ∙ same_args name ∙ args, stay' _ _ _ (stay _ _ _ bound), refl, refl))

  queue-IsSetUp :
      (c : MqServer) (w : W) (st : ServerState)
      → IsBound c.dlx_exchange c.dlx_queue c.dlx_queue w
      → (from_queue c (w, st)).0 ≡ ok tt
      → IsSetUp c st (from_queue c (w, st)).1
  queue-IsSetUp c w st bound h =
      let (name, done, more) =
        bind-ok (declare_queue broker texts c) (bind_and_subscribe c) (w, st) tt h in
      let (w', ran, stay, args) = queue-declared texts keeps c w st name done in
      let st' : ServerState = record st { config = record st.config { queue = name } } in
      let e =
        continues (declare_queue broker texts c) (bind_and_subscribe c) (w, st) (w', st') name
          ran in
      rw e (subscribed-IsSetUp c w' st' args (stay _ _ _ bound) (sym (ap (λ y. y.0) e) ∙ h))

  exchange-IsSetUp :
      (c : MqServer) (w : W) (st : ServerState)
      → IsBound c.dlx_exchange c.dlx_queue c.dlx_queue w
      → (from_exchange c (w, st)).0 ≡ ok tt
      → IsSetUp c st (from_exchange c (w, st)).1
  exchange-IsSetUp c w st bound h =
      let next = λ (u : Unit {0}). from_queue c in
      let (u, done, more) = bind-ok (declare_exchange broker texts c) next (w, st) tt h in
      let (w', ran, stay) = exchange-stays texts keeps c w st done in
      let e = continues (declare_exchange broker texts c) next (w, st) (w', st) tt ran in
      rw e (queue-IsSetUp c w' st (stay _ _ _ bound) (sym (ap (λ y. y.0) e) ∙ h))

  declared-IsSetUp :
      (c : MqServer) (w : W) (st : ServerState)
      → c.dlx_queue ≢ ""
      → ((declare_dead_letters broker texts c >> from_exchange c) (w, st)).0 ≡ ok tt
      → IsSetUp c st ((declare_dead_letters broker texts c >> from_exchange c) (w, st)).1
  declared-IsSetUp c w st named h =
      let next = λ (u : Unit {0}). from_exchange c in
      let (u, done, more) = bind-ok (declare_dead_letters broker texts c) next (w, st) tt h in
      let (w', ran, bound) = dead_letters-IsBound texts keeps c w st named done in
      let e = continues (declare_dead_letters broker texts c) next (w, st) (w', st) tt ran in
      rw e (exchange-IsSetUp c w' st bound (sym (ap (λ y. y.0) e) ∙ h))

  -- A set up that succeeds leaves a queue to consume from whose messages, where they are rejected and not
  -- put back, go to an exchange with a routing key under which the dead letter queue is bound to it.
  pub set_up-dead_letters :
      (w : W) (st : ServerState)
      → st.config.dlx_queue ≢ ""
      → (set_up broker texts (w, st)).0 ≡ ok tt
      → let (w', st') = (set_up broker texts (w, st)).1 in
        (args_of st'.config.queue w'
          ≡ some (
              ("x-dead-letter-exchange", st.config.dlx_exchange)
              ∷ ("x-dead-letter-routing-key", st.config.dlx_queue)
              ∷ []))
        × IsBound st.config.dlx_exchange st.config.dlx_queue st.config.dlx_queue w'
        × (st'.has_channel ≡ true)
        × (st'.consumer_tag ≡ "resource-consumer")
  unfolding set_up dead_letter_arguments
  set_up-dead_letters w st named h =
      let rest = λ (u : Unit {0}) (x : W × ServerState).
        (declare_dead_letters broker texts st.config >> from_exchange st.config)
          (x.0, record x.1 { has_channel = true }) in
      let (u, opened, e) =
        text-runs broker texts "failed to open channel" broker.open_channel rest tt w st h in
      rw e (
        declared-IsSetUp st.config (broker.open_channel w).1 (record st { has_channel = true })
          named (sym (ap (λ y. y.0) e) ∙ h))
