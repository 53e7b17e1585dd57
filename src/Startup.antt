-- ===== src/Startup.antt =====
-- The start and the end of the program: cmd/resource/main.go, and wireApp of cmd/resource/wire_gen.go.
pub mod Recording
pub mod Nested
use run_all_resource.Prelude.{
  String, Bool, true, false, Option, none, some, List, [], ◌∷◌, if◌then◌else◌,
}
use run_all_resource.Go.{Result, ok, err, M, pure, fail, attempt, ignore, ◌>>=◌, ◌>>◌}
use run_all_resource.Data.PortPool.{K8sSettings, new_k8s_settings}
use run_all_resource.Data.Clients.{
  DataConf, Libraries, kubernetes_of, rabbitmq_of, new_data, new_k8s_client, new_rabbitmq,
}
use run_all_resource.Mq.Config.{RabbitmqConf, MqServer, new_mq_server}

-- the candidates of detectConfigPath, and the loop over them
abbrev first_directory : (String → Bool) → List String → String
first_directory is_dir [] = "configs"
first_directory is_dir (c ∷ cs) = if is_dir c then c else first_directory is_dir cs

-- `is_dir path` says that os.Stat finds a directory there.
unfoldable pub detect_config_path : (String → Bool) → String
detect_config_path is_dir =
    first_directory is_dir ("configs" ∷ "./configs" ∷ "../configs" ∷ "../../configs" ∷ [])

-- what wireApp puts together: the settings of the cluster repository, the consumer of the queue and
-- whether it has a connection
pub record App : Type 0 where
  pub settings : K8sSettings
  pub mq_server : MqServer
  pub connected : Bool

abbrev empty_rabbitmq : RabbitmqConf
empty_rabbitmq = record {
  url = "";
  queue = "";
  exchange = "";
  routing_key = "";
  dlx_exchange = "";
  dlx_queue = "";
  max_retries = 0;
}

abbrev or_empty : Option RabbitmqConf → RabbitmqConf
or_empty none = empty_rabbitmq
or_empty (some r) = r

module _ {W : Type 0} where
  -- `if err != nil { cleanup(); return nil, nil, err }`
  abbrev or_clean_up : {A : Type 0} → M W (Unit {0}) → M W A → M W A
  or_clean_up cleanup m w =
      let (r, w') = m w in
      let cleaned = (cleanup w').1 in elim r [ ok a ↦ (ok a, w') | err e ↦ (err e, cleaned) ]

  -- a deferred call, which is made whether the body returns or panics
  abbrev deferred : {A : Type 0} → M W (Unit {0}) → M W A → M W A
  deferred cleanup m w = let (r, w') = m w in (r, (cleanup w').1)

abbrev app_of : Option DataConf → Bool → App
app_of c connected = record {
  settings = new_k8s_settings (kubernetes_of c);
  mq_server = new_mq_server (or_empty (rabbitmq_of c));
  connected = connected;
}

module _ {W : Type 0} where
  -- the application with the cleanup of both connections
  abbrev assembled :
      Option DataConf → M W (Unit {0}) → Bool × M W (Unit {0}) → M W (App × M W (Unit {0}))
  assembled c cleanup (connected, cleanup2) = pure (app_of c connected, ignore cleanup2 >> cleanup)

module _ {W : Type 0} (lib : Libraries W) where
  -- the application and its cleanup
  unfoldable pub wire_app : Option DataConf → M W (App × M W (Unit {0}))
  unfolding new_data new_k8s_client new_rabbitmq
  wire_app c = new_data lib c >>= λ cleanup.
      or_clean_up cleanup (new_k8s_client lib c)
      >> or_clean_up cleanup (new_rabbitmq lib c)
      >>= assembled c cleanup

-- The configuration source of Kratos, and `app.Run()`.
pub record Kratos (W : Type 0) : Type 0 where
  pub load : String → M W (Unit {0})
  pub scan : M W (Option DataConf)
  pub close : M W (Unit {0})
  pub run : App → M W (Unit {0})

module _ {W : Type 0} (kratos : Kratos W) where
  abbrev load_conf : String → M W (Option DataConf)
  load_conf path = kratos.load path >> kratos.scan

  abbrev run_with : App × M W (Unit {0}) → M W (Unit {0})
  run_with (app, cleanup) = deferred cleanup (kratos.run app)

  -- main on the configuration path; an error is a panic
  unfoldable pub main : Libraries W → String → M W (Unit {0})
  unfolding wire_app
  main lib path = deferred kratos.close (load_conf path >>= wire_app lib >>= run_with)
