-- ===== src/Tests/Cluster.antt =====
-- The names, ports and quantities of the cluster at concrete inputs.
use run_all_resource.Prelude.{ℕ, ◌*◌, ◌^◌, pos, negsuc, ◌≡◌, ◌↔◌, refl, [], ◌∷◌, arith}
use run_all_resource.Go.Decimal.{format_int}
use run_all_resource.Data.Names.{generate_service_name, generate_ingress_name}
use run_all_resource.Data.Names.Distinct.{names_distinct}
use run_all_resource.Data.PortPool.{K8sSettings, allocations}
use run_all_resource.Data.PortPool.Sequence.{allocations_exact}
use run_all_resource.Data.Quota.{resource_list}
use run_all_resource.Data.Quota.Bounds.{resource_list_exact}

abbrev high_port : ℕ
high_port = 11

names_distinct_example :
    ((generate_service_name (format_int (pos 1)) 11
        ≡ generate_service_name (format_int (negsuc 0)) 1)
      ↔ ((pos 1 ≡ negsuc 0) × (high_port ≡ 1)))
    × ((generate_ingress_name (format_int (pos 1)) 11
          ≡ generate_ingress_name (format_int (negsuc 0)) 1)
        ↔ ((pos 1 ≡ negsuc 0) × (high_port ≡ 1)))
names_distinct_example = names_distinct (pos 1) (negsuc 0) 11 1

abbrev pub pool : K8sSettings
pool = record {
  ingress_domain = "demo.localtest.me";
  ingress_nginx_namespace = "ingress-nginx";
  ingress_nginx_lb_service = "ingress-nginx-controller";
  tcp_udp_port_range_start = 30000;
  tcp_udp_port_range_end = 30001;
  next_available_port = 30000;
}

allocations_exact_example : (allocations 4 pool).0 ≡ 30000 ∷ 30001 ∷ 0 ∷ 0 ∷ []
allocations_exact_example = allocations_exact 2 2 pool refl (omega arith)

resource_list_exact_example :
    ((resource_list 2 0 1).cpu ≡ pos 2000) × ((resource_list 2 0 1).memory ≡ pos (512 * 2 ^ 20))
resource_list_exact_example = resource_list_exact 2 0 1 (omega arith) (omega arith)

abbrev h100 : ℕ
h100 = 3
