-- ===== src/Tests/Sample.antt =====
-- A use case whose repositories keep lists in memory and whose cluster gives a fixed answer.
use run_all_resource.Prelude.{
  ℕ, ℤ, int_eq, pos, Bool, false, ◌&&◌, ◌||◌, Option, none, some, List, [], ◌∷◌, ◌==◌,
  if◌then◌else◌,
}
use run_all_resource.Go.{
  Error, plain, sentinel, external, instance_already_exists, Texts, Result, ok, err, M,
}
use run_all_resource.Biz.Types.{InstanceSpec, NetworkBinding, Resource}
use run_all_resource.Biz.Repos.{InstanceRepo, K8sRepo, NetworkRepo, ResourceUsecase}

pub record World : Type 0 where
  pub instances : List ℤ
  pub bindings : List NetworkBinding

abbrev pub empty_world : World
empty_world = record { instances = []; bindings = [] }

abbrev pub with_instance : World
with_instance = record { instances = pos 7 ∷ []; bindings = [] }

abbrev pub is_stored : ℤ → List ℤ → Bool
is_stored id [] = false
is_stored id (i ∷ ids) = int_eq id i || is_stored id ids

abbrev pub resource_of : ℤ → Resource
resource_of id = record {
  instance_id = id;
  name = "web";
  user_id = "u1";
  type = "instance";
  created_at = 1;
  updated_at = 1;
}

abbrev find_binding : ℤ → ℕ → List NetworkBinding → Option NetworkBinding
find_binding id port [] = none
find_binding id port (b ∷ bs) =
    if int_eq b.instance_id id && b.port == port then some b else find_binding id port bs

abbrev without : ℤ → ℕ → List NetworkBinding → List NetworkBinding
without id port [] = []
without id port (b ∷ bs) =
    let rest = without id port bs in
    if int_eq b.instance_id id && b.port == port then rest else b ∷ rest

abbrev done : M World (Unit {0})
done w = (ok tt, w)

abbrev pub sample_instances : InstanceRepo World
sample_instances = record {
  create_instance = λ spec w.
      if is_stored spec.instance_id w.instances
      then (err (sentinel instance_already_exists), w)
      else (ok tt, record w { instances = spec.instance_id ∷ w.instances });
  list_resources = λ filter w. (ok [], w);
  get_resource = λ id w. (ok (if is_stored id w.instances then some (resource_of id) else none), w);
  list_resource_specs = λ ids w. (ok [], w);
}

abbrev sample_network : NetworkRepo World
sample_network = record {
  create_network_binding = λ b w. (ok tt, record w { bindings = b ∷ w.bindings });
  update_network_binding = λ b. done;
  delete_network_binding = λ id port w. (ok tt, record w { bindings = without id port w.bindings });
  get_network_binding = λ id port w. (ok (find_binding id port w.bindings), w);
  list_network_bindings = λ id w. (ok w.bindings, w);
  batch_delete_network_bindings = λ id w. (ok tt, record w { bindings = [] });
}

-- `answer` is what the cluster says to a deployment
abbrev sample_k8s : Result (Unit {0}) → K8sRepo World
sample_k8s answer = record {
  create_instance = λ spec w. (answer, w);
  delete_instance = λ ns id. done;
  stop_instance = λ ns id w. (answer, w);
  start_instance = λ ns id. done;
  update_instance = λ spec. done;
  create_service_for_tcp_udp = λ ns id port protocol w. (ok ("instance-7-22", 30000), w);
  create_service_for_http = λ ns id port w. (ok "instance-7-80", w);
  delete_service = λ ns name. done;
  delete_tcp_udp_config_map_entry = λ protocol port. done;
  create_ingress =
      λ ns id port service domain w. (ok ("ingress-7-80", "http://demo.localtest.me/u1/7/80"), w);
  delete_ingress = λ ns name. done;
  get_ingress_domain = "demo.localtest.me";
  get_ingress_nginx_lb_ip = λ w. (ok "10.0.0.9", w);
}

abbrev pub sample : Result (Unit {0}) → ResourceUsecase World
sample answer = record {
  instance_spec = sample_instances;
  audit_repo = record { create_audit = λ a. done };
  k8s_repo = sample_k8s answer;
  network_repo = sample_network;
  exec_repo = record { stream_exec = λ opts. done };
  clock = λ w. 1700000000;
}

abbrev pub refused : Error
refused = plain "deployments.apps is forbidden"

abbrev pub timed_out : Error
timed_out = external (record {
  text = "dial tcp 10.0.0.1:5432: i/o timeout";
  not_found = false;
  already_exists = false;
  pg_code = none;
})

abbrev pub web : InstanceSpec
web = record {
  instance_id = pos 7;
  user_id = "u1";
  name = "web";
  cpu = 2;
  memory = 4096;
  gpu = 0;
  image = "nginx";
  config_json = "";
}

abbrev pub sample_texts : Texts
sample_texts = record {
  kratos_text = λ code reason message. message;
  record_not_found_text = "record not found";
  amqp_closed_text = "channel/connection is not open";
}

-- a use case whose calls all succeed and change nothing
abbrev pub quiet : {W : Type 0} → ResourceUsecase W
quiet = record {
  instance_spec = record {
    create_instance = λ spec w. (ok tt, w);
    list_resources = λ filter w. (ok [], w);
    get_resource = λ id w. (ok none, w);
    list_resource_specs = λ ids w. (ok [], w);
  };
  audit_repo = record { create_audit = λ a w. (ok tt, w) };
  k8s_repo = record {
    create_instance = λ spec w. (ok tt, w);
    delete_instance = λ ns id w. (ok tt, w);
    stop_instance = λ ns id w. (ok tt, w);
    start_instance = λ ns id w. (ok tt, w);
    update_instance = λ spec w. (ok tt, w);
    create_service_for_tcp_udp = λ ns id port protocol w. (ok ("instance-7-22", 30000), w);
    create_service_for_http = λ ns id port w. (ok "instance-7-80", w);
    delete_service = λ ns name w. (ok tt, w);
    delete_tcp_udp_config_map_entry = λ protocol port w. (ok tt, w);
    create_ingress = λ ns id port service domain w. (ok ("ingress-7-80", "http://d/u1/7/80"), w);
    delete_ingress = λ ns name w. (ok tt, w);
    get_ingress_domain = "d";
    get_ingress_nginx_lb_ip = λ w. (ok "10.0.0.9", w);
  };
  network_repo = record {
    create_network_binding = λ b w. (ok tt, w);
    update_network_binding = λ b w. (ok tt, w);
    delete_network_binding = λ id port w. (ok tt, w);
    get_network_binding = λ id port w. (ok none, w);
    list_network_bindings = λ id w. (ok [], w);
    batch_delete_network_bindings = λ id w. (ok tt, w);
  };
  exec_repo = record { stream_exec = λ opts w. (ok tt, w) };
  clock = λ w. 5;
}

abbrev pub clock : {W : Type 0} → W → ℕ
clock w = 5
