-- ===== src/Mq/Config.antt =====
-- NewMQServer of internal/server/mq.go: the names of the queues and the retry limit, with the defaults
-- for what the configuration leaves out.
use run_all_resource.Prelude.{
  ℕ, String, ◌≡◌, ◌≢◌, ◌⊎◌, ◌<◌, ◌==◌, str_eq, eq_iff, arith, if◌then◌else◌,
}

pub record RabbitmqConf : Type 0 where
  pub url : String
  pub queue : String
  pub exchange : String
  pub routing_key : String
  pub dlx_exchange : String
  pub dlx_queue : String
  pub max_retries : ℕ

pub record MqServer : Type 0 where
  pub queue : String
  pub exchange : String
  pub routing_key : String
  pub dlx_exchange : String
  pub dlx_queue : String
  pub max_retries : ℕ

unfoldable pub new_mq_server : RabbitmqConf → MqServer
new_mq_server r = record {
  queue = r.queue;
  exchange = r.exchange;
  routing_key = r.routing_key;
  dlx_exchange = if str_eq r.dlx_exchange "" then "resource.dlx" else r.dlx_exchange;
  dlx_queue = if str_eq r.dlx_queue "" then "resource.dlq" else r.dlx_queue;
  max_retries = if r.max_retries == 0 then 3 else r.max_retries;
}

-- Whatever the configuration says, a message is tried at least once, and the dead letter exchange and
-- queue have names; a limit or a name that is configured is kept.
pub new_mq_server_usable :
    (r : RabbitmqConf)
    → let s = new_mq_server r in
      (0 < s.max_retries)
      × (s.dlx_exchange ≢ "")
      × (s.dlx_queue ≢ "")
      × ((r.max_retries ≡ 0) ⊎ (s.max_retries ≡ r.max_retries))
      × ((r.dlx_exchange ≡ "") ⊎ (s.dlx_exchange ≡ r.dlx_exchange))
      × ((r.dlx_queue ≡ "") ⊎ (s.dlx_queue ≡ r.dlx_queue))
unfolding new_mq_server
new_mq_server_usable r = ground (
  arith,
  eq_iff r.dlx_exchange "",
  eq_iff r.dlx_queue "",
  eq_iff "resource.dlx" "",
  eq_iff "resource.dlq" "",
)
