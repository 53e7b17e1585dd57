-- ===== src/Data/Clients.antt =====
-- The connections that internal/data opens: NewData and NewK8sClient of data.go, NewRabbitMQ and
-- NewRabbitMQChannel of rabbitmq.go.
use run_all_resource.Prelude.{
  String, Bool, true, false, Option, none, some, List, [], ◌∷◌, str_eq, if◌then◌else◌,
}
use run_all_resource.Go.{
  plain, Result, ok, err, M, pure, fail, attempt, ignore, of_result, ◌>>=◌, ◌>>◌,
}
use run_all_resource.Data.PortPool.{KubernetesConf}
use run_all_resource.Mq.Config.{RabbitmqConf}
use run_all_resource.Mq.Broker.{Broker, direct_exchange}

-- `conf.Data`: the source of the database, and the parts that may be left out
pub record DataConf : Type 0 where
  pub database : Option String
  pub rabbitmq : Option RabbitmqConf
  pub kubernetes : Option KubernetesConf

-- The calls of gorm, of client-go, of the amqp library and of the operating system.
pub record Libraries (W : Type 0) : Type 0 where
  pub getenv : String → String
  pub join_path : List String → String
  pub open_database : String → M W (Unit {0})
  pub sql_db : M W (Unit {0})
  pub close_database : M W (Unit {0})
  pub build_config : String → M W (Unit {0})
  pub new_for_config : M W (Unit {0})
  pub dial : String → M W (Unit {0})
  pub open_test_channel : M W (Unit {0})
  pub close_test_channel : M W (Unit {0})
  pub close_connection : M W (Unit {0})

abbrev pub source_of : Option DataConf → Option String
source_of none = none
source_of (some c) = c.database

abbrev pub kubernetes_of : Option DataConf → Option KubernetesConf
kubernetes_of none = none
kubernetes_of (some c) = c.kubernetes

abbrev pub rabbitmq_of : Option DataConf → Option RabbitmqConf
rabbitmq_of none = none
rabbitmq_of (some c) = c.rabbitmq

abbrev kubeconfig_of : Option KubernetesConf → String
kubeconfig_of none = ""
kubeconfig_of (some c) = c.kubeconfig

abbrev pub url_of : Option RabbitmqConf → String
url_of none = ""
url_of (some r) = r.url

abbrev pub text_of : Option String → String
text_of none = ""
text_of (some t) = t

-- which file NewK8sClient reads, from the environment and the configuration
unfoldable pub kubeconfig_path :
    (String → String) → (List String → String) → Option KubernetesConf → Result String
kubeconfig_path getenv join conf =
    let configured = kubeconfig_of conf in
    let env = getenv "KUBECONFIG" in
    let home = if str_eq (getenv "HOME") "" then getenv "USERPROFILE" else getenv "HOME" in
    if str_eq configured ""
    then if str_eq env ""
      then if str_eq home ""
        then err (plain "kubeconfig path not configured")
        else ok (join (home ∷ ".kube" ∷ "config" ∷ []))
      else ok env
    else ok configured

module _ {W : Type 0} (lib : Libraries W) where
  -- the `cleanup` of NewData; its errors are only logged
  unfoldable pub close_data : M W (Unit {0})
  close_data = ignore (lib.sql_db >> lib.close_database)

  -- NewData returns its cleanup
  unfoldable pub new_data : Option DataConf → M W (M W (Unit {0}))
  unfolding close_data
  new_data c =
      let source = text_of (source_of c) in
      if str_eq source ""
      then fail (plain "database configuration is missing")
      else (lib.open_database source >> pure close_data)

  unfoldable pub new_k8s_client : Option DataConf → M W (Unit {0})
  unfolding kubeconfig_path
  new_k8s_client c =
      of_result (kubeconfig_path lib.getenv lib.join_path (kubernetes_of c))
      >>= lib.build_config
      >> lib.new_for_config

  -- the `cleanup` of NewRabbitMQ; its errors are only logged
  unfoldable pub close_rabbitmq : M W (Unit {0})
  close_rabbitmq = ignore lib.close_connection

  abbrev pub no_cleanup : M W (Unit {0})
  no_cleanup = pure tt

  -- `conn.Channel()` as a test, after which the connection is kept or closed
  unfoldable pub after_dial : Result (Unit {0}) → M W (Bool × M W (Unit {0}))
  unfolding close_rabbitmq
  after_dial (err e) = pure (false, no_cleanup)
  after_dial (ok _) = attempt lib.open_test_channel >>= λ channel. elim channel [
    | ok _ ↦ ignore lib.close_test_channel >> pure (true, close_rabbitmq)
    | err e ↦ ignore lib.close_connection >> pure (false, no_cleanup)
  ]

  -- NewRabbitMQ: whether there is a connection, and the cleanup. It never returns an error.
  unfoldable pub new_rabbitmq : Option DataConf → M W (Bool × M W (Unit {0}))
  unfolding after_dial
  new_rabbitmq c =
      let url = url_of (rabbitmq_of c) in
      if str_eq url "" then pure (false, no_cleanup) else (attempt (lib.dial url) >>= after_dial)

module _ {W : Type 0} (broker : Broker W) where
  -- NewRabbitMQChannel on a connection
  unfoldable pub new_rabbitmq_channel : RabbitmqConf → M W (Unit {0})
  new_rabbitmq_channel r =
      broker.open_channel >> broker.exchange_declare (direct_exchange r.exchange)
