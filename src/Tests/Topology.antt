-- ===== src/Tests/Topology.antt =====
-- A broker that keeps its queues and bindings in memory, and the set up of the consumer in it.
use run_all_resource.Prelude.{
  String, ◌≡◌, ◌≢◌, refl, Bool, true, false, ◌&&◌, ◌||◌, Option, none, some, List, [], ◌∷◌, arith,
  str_eq, eq_iff, eq_refl, if◌then◌else◌,
}
use run_all_resource.Go.{ok, M}
use run_all_resource.Mq.Consumer.{set_up}
use run_all_resource.Mq.Broker.{Broker, Binding, ServerState}
use run_all_resource.Mq.Consumer.Keeps.{KeepsTopology}
use run_all_resource.Mq.Consumer.DeadLetters.{set_up-dead_letters}
use run_all_resource.Tests.Sample.{sample_texts}

pub record Topology : Type 0 where
  pub queues : List (String × List (String × String))
  pub bindings : List Binding

abbrev find_args : String → List (String × List (String × String)) → Option (List (String × String))
find_args name [] = none
find_args name ((n, a) ∷ qs) = if str_eq n name then some a else find_args name qs

abbrev is_bound : String → String → String → List Binding → Bool
is_bound e k q [] = false
is_bound e k q (b ∷ bs) =
    (str_eq b.exchange e && str_eq b.routing_key k && str_eq b.queue q) || is_bound e k q bs

abbrev args_of : String → Topology → Option (List (String × String))
args_of name w = find_args name w.queues

abbrev IsBound : String → String → String → Topology → Type 0
IsBound e k q w = is_bound e k q w.bindings ≡ true

abbrev done : M Topology (Unit {0})
done w = (ok tt, w)

abbrev broker : Broker Topology
broker = record {
  open_channel = done;
  exchange_declare = λ x. done;
  queue_declare = λ q w. (ok q.name, record w { queues = (q.name, q.arguments) ∷ w.queues });
  queue_bind = λ b w. (ok tt, record w { bindings = b ∷ w.bindings });
  qos = λ count size global. done;
  consume = λ c. done;
  cancel = λ tag no_wait. done;
  close = done;
}

broker-KeepsTopology : KeepsTopology broker args_of IsBound
broker-KeepsTopology = record {
  declares = λ q w name declared.
      let same : q.name ≡ name = cc in ground (arith, (eq_iff q.name name).1 same);
  names = λ q w name declared named. cc;
  binds = λ b w bound. ground (arith, eq_refl b.exchange, eq_refl b.routing_key, eq_refl b.queue);
  exchange_keeps = λ x w e k q b. b;
  queue_keeps = λ x w e k q b. b;
  bind_keeps = λ x w e k q b. ground (arith, b);
  qos_keeps = λ n m g w e k q b. b;
  consume_keeps = λ x w e k q b. b;
  bind_keeps_args = λ x w q. refl;
  qos_keeps_args = λ n m g w q. refl;
  consume_keeps_args = λ x w q. refl;
}

abbrev fresh : ServerState
fresh = record {
  config = record {
    queue = "resource";
    exchange = "instance";
    routing_key = "instance.event";
    dlx_exchange = "resource.dlx";
    dlx_queue = "resource.dlq";
    max_retries = 3;
  };
  has_channel = false;
  consumer_tag = "";
}

abbrev nothing : Topology
nothing = record { queues = []; bindings = [] }

set_up-dead_letters_example :
    let (w, st) = (set_up broker sample_texts (nothing, fresh)).1 in
    (args_of st.config.queue w
      ≡ some (
          ("x-dead-letter-exchange", "resource.dlx")
          ∷ ("x-dead-letter-routing-key", "resource.dlq")
          ∷ []))
    × IsBound "resource.dlx" "resource.dlq" "resource.dlq" w
    × (st.has_channel ≡ true)
    × (st.consumer_tag ≡ "resource-consumer")
set_up-dead_letters_example =
    set_up-dead_letters sample_texts broker-KeepsTopology nothing fresh named succeeds
  where
    named : fresh.config.dlx_queue ≢ ""
    named = ground (arith, eq_iff "resource.dlq" "")

    succeeds : (set_up broker sample_texts (nothing, fresh)).0 ≡ ok tt
    succeeds = unfold set_up in refl
