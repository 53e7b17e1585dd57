-- ===== src/Tests/Startup.antt =====
-- The start of the program at concrete inputs.
use run_all_resource.Prelude.{ℕ, ◌≡◌, refl, false, none, some, [], str_eq, if◌then◌else◌}
use run_all_resource.Go.{plain, ok, err, M}
use run_all_resource.Data.Clients.{DataConf, Libraries, kubeconfig_path, after_dial, new_rabbitmq}
use run_all_resource.Mq.Config.{RabbitmqConf}
use run_all_resource.Startup.{detect_config_path, Kratos, main}
use run_all_resource.Startup.Nested.{main-closes_all}
use run_all_resource.Startup.Recording.{recording, recording_kratos}

abbrev succeeds : M ℕ (Unit {0})
succeeds w = (ok tt, w)

-- The libraries of a machine whose broker takes connections and refuses channels.
abbrev libraries : Libraries ℕ
libraries = record {
  getenv = λ name. if str_eq name "HOME" then "/root" else "";
  join_path = λ parts. "/root/.kube/config";
  open_database = λ source. succeeds;
  sql_db = succeeds;
  close_database = succeeds;
  build_config = λ path. succeeds;
  new_for_config = succeeds;
  dial = λ url. succeeds;
  open_test_channel = λ w. (err (plain "channel limit reached"), w);
  close_test_channel = succeeds;
  close_connection = succeeds;
}

abbrev rabbit : RabbitmqConf
rabbit = record {
  url = "amqp://guest:guest@mq:5672/";
  queue = "resource";
  exchange = "instance";
  routing_key = "instance.*";
  dlx_exchange = "";
  dlx_queue = "";
  max_retries = 0;
}

abbrev conf : DataConf
conf = record { database = some "host=db"; rabbitmq = some rabbit; kubernetes = none }

abbrev kratos : Kratos ℕ
kratos = record {
  load = λ path. succeeds;
  scan = λ w. (ok (some conf), w);
  close = succeeds;
  run = λ app w. (err (plain "address already in use"), w);
}

-- The connection is given up, and the start goes on without it.
no_connection : (new_rabbitmq libraries (some conf) 0).0 ≡ ok (false, λ (w : ℕ). (ok tt, w))
unfolding new_rabbitmq after_dial
no_connection = refl

paths :
    (kubeconfig_path libraries.getenv libraries.join_path none ≡ ok "/root/.kube/config")
    × (detect_config_path (str_eq "../configs") ≡ "../configs")
unfolding kubeconfig_path detect_config_path
paths = (refl, refl)

main-closes_all_example :
    (main (recording_kratos kratos) (recording libraries) "configs" (0, some [])).1.1 ≡ some []
main-closes_all_example = main-closes_all libraries (λ w. refl) kratos "configs" 0
