-- ===== src/Tests/Ports.antt =====
-- Opening and closing ports at concrete inputs.
use run_all_resource.Prelude.{pos, ◌≡◌, refl, none, some, [], List, ◌∷◌, true, false}
use run_all_resource.Go.{ok}
use run_all_resource.Go.Decimal.{itoa, format_int}
use run_all_resource.Biz.Types.{NetworkBinding}
use run_all_resource.Biz.Instance.{join, require_resource, write_audit}
use run_all_resource.Biz.Ports.{opened_url, open_port, close_port, set_instance_port}
use run_all_resource.Biz.Ports.Ledger.{Claim, ledgered, service, ingress, binding}
use run_all_resource.Biz.Ports.Balance.{open_port-balanced}
use run_all_resource.Biz.Ports.Claims.{OpenBalanced}
use run_all_resource.Biz.Ports.Close.{close_port-undoes}
use run_all_resource.Tests.Sample.{World, with_instance, sample}

abbrev http_binding : NetworkBinding
http_binding = record {
  instance_id = pos 7;
  port = 80;
  service_name = "instance-7-80";
  service_port = 80;
  external_port = none;
  ingress_name = some "ingress-7-80";
  protocol = "HTTP";
  access_url = "http://demo.localtest.me/u1/7/80";
  enabled = true;
  created_at = 1;
  updated_at = 1;
}

abbrev with_port : World
with_port = record { instances = pos 7 ∷ []; bindings = http_binding ∷ [] }

abbrev http_claims : List Claim
http_claims = binding (pos 7) 80 ∷ ingress "u1" "ingress-7-80" ∷ service "u1" "instance-7-80" ∷ []

open_port-balanced_example :
    OpenBalanced
      (pos 7)
      "u1"
      22
      "TCP"
      (ok none)
      []
      (open_port (ledgered (sample (ok tt))) (pos 7) "7" "u1" 22 "TCP" "" (with_instance, []))
open_port-balanced_example =
    open_port-balanced (sample (ok tt)) (pos 7) "7" "u1" 22 "TCP" "" with_instance []

close_port-undoes_example :
    (close_port (ledgered (sample (ok tt))) (pos 7) "u1" 80 (with_port, http_claims)).1.1 ≡ []
close_port-undoes_example =
    close_port-undoes (sample (ok tt)) (pos 7) "u1" 80 http_binding with_port [] refl closed
  where
    closed :
        (close_port (ledgered (sample (ok tt))) (pos 7) "u1" 80 (with_port, http_claims)).0 ≡ ok tt
    closed = unfold close_port write_audit in refl

-- a port that is opened and closed
opened_then_closed :
    let uc = sample (ok tt) in
    let (url, w) = set_instance_port uc (pos 7) 22 "TCP" true "" with_instance in
    (url ≡ ok "10.0.0.9:30000")
    × (set_instance_port uc (pos 7) 22 "TCP" false "" w ≡ (ok "", with_instance))
unfolding set_instance_port open_port close_port itoa format_int require_resource opened_url join
    write_audit
opened_then_closed = (refl, refl)
