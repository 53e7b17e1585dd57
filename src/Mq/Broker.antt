-- ===== src/Mq/Broker.antt =====
-- The calls of the amqp library that internal/server/mq.go makes, what it declares with them, and what its
-- loop waits for.
use run_all_resource.Prelude.{ℕ, String, Bool, true, false, Option, List}
use run_all_resource.Go.{Error, M}
use run_all_resource.Mq.Config.{MqServer}
use run_all_resource.Mq.Delivery.{Delivery}

pub record Exchange : Type 0 where
  pub name : String
  pub kind : String
  pub durable : Bool
  pub auto_deleted : Bool
  pub internal : Bool
  pub no_wait : Bool

-- `arguments` is empty where the table is nil
pub record Queue : Type 0 where
  pub name : String
  pub durable : Bool
  pub auto_deleted : Bool
  pub exclusive : Bool
  pub no_wait : Bool
  pub arguments : List (String × String)

pub record Binding : Type 0 where
  pub queue : String
  pub routing_key : String
  pub exchange : String
  pub no_wait : Bool

pub record Subscription : Type 0 where
  pub queue : String
  pub tag : String
  pub auto_ack : Bool
  pub exclusive : Bool
  pub no_local : Bool
  pub no_wait : Bool

-- The calls on a connection and its channel. A declared queue comes back with its name.
pub record Broker (W : Type 0) : Type 0 where
  pub open_channel : M W (Unit {0})
  pub exchange_declare : Exchange → M W (Unit {0})
  pub queue_declare : Queue → M W String
  pub queue_bind : Binding → M W (Unit {0})
  pub qos : ℕ → ℕ → Bool → M W (Unit {0})
  pub consume : Subscription → M W (Unit {0})
  pub cancel : String → Bool → M W (Unit {0})
  pub close : M W (Unit {0})

-- the fields of MQServer: the configuration, whether `ch` is not nil, and the tag
pub record ServerState : Type 0 where
  pub config : MqServer
  pub has_channel : Bool
  pub consumer_tag : String

-- What the loop waits for: the end of the context, the closing of the channel with an error or nil, a
-- delivery, and the end of the deliveries.
pub data Event : Type 0 where
  context_done : Event
  channel_closed : Option Error → Event
  delivery : Delivery → Event
  deliveries_closed : Event

abbrev pub direct_exchange : String → Exchange
direct_exchange name = record {
  name = name;
  kind = "direct";
  durable = true;
  auto_deleted = false;
  internal = false;
  no_wait = false;
}

abbrev pub durable_queue : String → List (String × String) → Queue
durable_queue name arguments = record {
  name = name;
  durable = true;
  auto_deleted = false;
  exclusive = false;
  no_wait = false;
  arguments = arguments;
}

abbrev pub bind_to : String → String → String → Binding
bind_to queue key exchange = record {
  queue = queue;
  routing_key = key;
  exchange = exchange;
  no_wait = false;
}
