-- ===== src/Tests/Kube.antt =====
-- A cluster in memory, and the cluster repository over it at concrete inputs.
use run_all_resource.Prelude.{
  ℕ, String, pos, ◌≡◌, ◌≢◌, ◌↔◌, refl, true, false, ◌&&◌, Option, none, some, List, [], ◌∷◌, arith,
  str_eq, eq_iff, eq_refl, if◌then◌else◌,
}
use run_all_resource.Go.{Error, external, ok, err, M}
use run_all_resource.Go.Decimal.{itoa, format_int}
use run_all_resource.Biz.Types.{InstanceSpec}
use run_all_resource.Data.Kube.Objects.{Labels, Service, ConfigMap, Scale, to_int32}
use run_all_resource.Data.Kube.Client.{K8sClient}
use run_all_resource.Data.Kube.Deployments.{
  stop_instance, start_instance, deployment_of, update_deployment_of,
}
use run_all_resource.Data.Kube.Deployments.Outcomes.{KeepsScales, stop_and_start}
use run_all_resource.Data.Kube.Deployments.Pods.{
  selects, service_selects_pods, update_deployment_of-deployment_of,
}
use run_all_resource.Data.Kube.Services.{service_of}
use run_all_resource.Data.Kube.Nginx.{
  config_map_name, has_port, is_port, patch_config_map, patch_service_port,
  delete_tcp_udp_config_map_entry, create_service_for_tcp_udp,
}
use run_all_resource.Data.Kube.Nginx.Ports.{KeepsNginx}
use run_all_resource.Data.Kube.Nginx.RoundTrip.{entry_of, entry_round_trip}
use run_all_resource.Data.Kube.Nginx.Exposed.{create_service_for_tcp_udp-balanced}
use run_all_resource.Data.Kube.Nginx.Claims.{ExposedBalanced, ledgered_client}
use run_all_resource.Tests.Sample.{web}
use run_all_resource.Tests.Cluster.{pool}

pub record Cluster : Type 0 where
  pub nginx : Service
  pub maps : List (String × (Option Labels × ℕ))
  pub scales : List ((String × String) × Scale)

abbrev find_map : String → List (String × (Option Labels × ℕ)) → Option Labels × ℕ
find_map name [] = (none, 0)
find_map name ((n, m) ∷ ms) = if str_eq n name then m else find_map name ms

abbrev map_of : String → Cluster → ConfigMap
map_of name w = record {
  name = name;
  entries = (find_map name w.maps).0;
  rest = (find_map name w.maps).1;
}

abbrev find_scale : String → String → List ((String × String) × Scale) → Scale
find_scale namespace id [] = record { name = id; replicas = 1; rest = 0 }
find_scale namespace id (((n, i), s) ∷ ss) =
    if str_eq n namespace && str_eq i id then s else find_scale namespace id ss

abbrev scale_of : String → String → Cluster → Scale
scale_of namespace id w = find_scale namespace id w.scales

abbrev done : M Cluster (Unit {0})
done w = (ok tt, w)

abbrev not_found : Error
not_found =
    external
      (record { text = "not found"; not_found = true; already_exists = false; pg_code = none })

abbrev missing : {A : Type 0} → M Cluster A
missing w = (err not_found, w)

abbrev client : K8sClient Cluster
client = record {
  get_namespace = λ name. missing;
  create_namespace = λ ns. done;
  create_deployment = λ ns d. done;
  get_deployment = λ ns name. missing;
  update_deployment = λ ns d. done;
  delete_deployment = λ ns name. missing;
  get_scale = λ ns id w. (ok (scale_of ns id w), w);
  update_scale = λ ns id s w. (ok tt, record w { scales = ((ns, id), s) ∷ w.scales });
  create_service = λ ns s. done;
  get_service = λ ns name w. (ok w.nginx, w);
  update_service = λ ns s w. (ok tt, record w { nginx = s });
  delete_service = λ ns name. missing;
  list_services = λ ns labels w. (ok (w.nginx ∷ []), w);
  create_ingress = λ ns i. done;
  delete_ingress = λ ns name. missing;
  delete_ingresses = λ ns labels. done;
  get_config_map = λ ns name w. (ok (map_of name w), w);
  update_config_map =
      λ ns cm w. (ok tt, record w { maps = (cm.name, (cm.entries, cm.rest)) ∷ w.maps });
}

abbrev cluster : Cluster
cluster = record {
  nginx = record {
    name = "ingress-nginx-controller";
    namespace = "ingress-nginx";
    labels = [];
    type = "LoadBalancer";
    selector = [];
    ports = record { name = "http"; protocol = "TCP"; port = pos 80; target_port = pos 80 } ∷ [];
    load_balancer = [];
    rest = 3;
  };
  maps = ("tcp-services", (some (("9000", "u2/instance-1-9000:9000") ∷ []), 1)) ∷ [];
  scales = [];
}

client-KeepsNginx : KeepsNginx client pool (λ w. w.nginx) map_of
client-KeepsNginx = record {
  reads_service = λ w. refl;
  service_answers = λ s w. refl;
  writes_service = λ s w. refl;
  service_apart = λ s w name. refl;
  reads_map = λ name w. refl;
  named = λ name w. refl;
  map_answers = λ cm w. refl;
  writes_map = λ cm w. ground (arith, eq_refl cm.name);
  map_apart = λ cm w. refl;
}

client-KeepsScales : KeepsScales client scale_of
client-KeepsScales = record {
  reads = λ ns id w. refl;
  answers = λ ns id s w. refl;
  writes = λ ns id s w. ground (arith, eq_refl ns, eq_refl id);
}

entry_round_trip_example :
    let value : String = "u1/instance-7-22:22" in
    let mapped = patch_config_map client pool "tcp-services" (itoa 30000) value cluster in
    let served = patch_service_port client pool 30000 "TCP" mapped.1 in
    let deleted = delete_tcp_udp_config_map_entry client pool "TCP" 30000 served.1 in
    (mapped.0 ≡ ok tt)
    × (served.0 ≡ ok tt)
    × (deleted.0 ≡ ok tt)
    × (entry_of client-KeepsNginx "tcp-services" served.1 (itoa 30000) ≡ some value)
    × (has_port 30000 "TCP" served.1.nginx.ports ≡ true)
    × (deleted.1.nginx ≡ cluster.nginx)
    × (entry_of client-KeepsNginx "tcp-services" deleted.1 "9000" ≡ (
        if str_eq (itoa 30000) "9000"
        then none
        else entry_of client-KeepsNginx "tcp-services" cluster "9000"))
entry_round_trip_example =
    entry_round_trip client-KeepsNginx "TCP" "tcp-services" 30000 "u1/instance-7-22:22" "9000"
      cluster known absent
  where
    known : config_map_name "TCP" ≡ some "tcp-services"
    known = unfold config_map_name in refl

    absent : has_port 30000 "TCP" cluster.nginx.ports ≡ false
    absent = unfold has_port is_port to_int32 in refl

create_service_for_tcp_udp-balanced_example :
    ExposedBalanced pool "u1" "7" 22 []
      (create_service_for_tcp_udp (ledgered_client client) "u1" "7" 22 "TCP" ((cluster, []), pool))
create_service_for_tcp_udp-balanced_example =
    create_service_for_tcp_udp-balanced client pool "u1" "7" 22 "TCP" cluster []

stop_and_start_example :
    let stopped = stop_instance client "u1" "7" cluster in
    let started = start_instance client "u1" "7" stopped.1 in
    (stopped.0 ≡ ok tt)
    × (scale_of "u1" "7" stopped.1 ≡ record { name = "7"; replicas = 0; rest = 0 })
    × (started.0 ≡ ok tt)
    × (scale_of "u1" "7" started.1 ≡ record { name = "7"; replicas = 1; rest = 0 })
stop_and_start_example = stop_and_start client client-KeepsScales "u1" "7" cluster

service_selects_pods_example :
    (selects (deployment_of web).match_labels (deployment_of web).pod_labels ≡ true)
    × ((selects
            (service_of "u1" (format_int (pos 8)) 22 "TCP").selector
            (deployment_of web).pod_labels
          ≡ true)
        ↔ (pos 8 ≡ pos 7))
service_selects_pods_example = service_selects_pods "u1" (pos 8) 22 "TCP" web

abbrev bigger : InstanceSpec
bigger = record web { name = ""; cpu = 8; gpu = 3; image = "pytorch" }

update_deployment_of-deployment_of_example :
    update_deployment_of bigger (deployment_of web) ≡ deployment_of bigger
update_deployment_of-deployment_of_example =
    update_deployment_of-deployment_of web bigger refl refl has_image
  where
    has_image : bigger.image ≢ ""
    has_image = ground (arith, eq_iff "pytorch" "")
