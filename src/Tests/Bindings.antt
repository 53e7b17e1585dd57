-- ===== src/Tests/Bindings.antt =====
-- The table of port bindings in memory, and the network repository over it.
use run_all_resource.Prelude.{
  ℕ, ℤ, int_eq, int_eq_iff, pos, ◌≡◌, ◌≢◌, refl, ap, Bool, true, ◌&&◌, Option, none, some, List, [],
  ◌∷◌, arith, ◌==◌, eq_iff, if◌then◌else◌,
}
use run_all_resource.Go.{sentinel, record_not_found, ok, err, M}
use run_all_resource.Go.Decimal.{itoa}
use run_all_resource.Biz.Types.{NetworkBinding}
use run_all_resource.Biz.Repos.{ResourceUsecase}
use run_all_resource.Biz.Instance.{join, write_audit}
use run_all_resource.Biz.Ports.{open_port, opened_url}
use run_all_resource.Biz.Ports.Again.{KeepsBindings, open_port_again}
use run_all_resource.Data.Network.{
  Where, at_port, at_instance, NetworkRow, NetworkTable, create_network_binding,
  delete_network_binding, get_network_binding, network_repo, is_record_not_found,
}
use run_all_resource.Data.Network.RoundTrip.{
  stored_row, row_or_error, KeepsTable, IsOpen, binding_round_trip, network_repo-KeepsBindings,
}
use run_all_resource.Tests.Sample.{quiet, clock}

abbrev has_key : ℤ → ℕ → NetworkRow → Bool
has_key id port r = int_eq r.instance_id id && r.port == port

abbrev row_at : ℤ → ℕ → List NetworkRow → Option NetworkRow
row_at id port [] = none
row_at id port (r ∷ rs) = if has_key id port r then some r else row_at id port rs

abbrev without : ℤ → ℕ → List NetworkRow → List NetworkRow
without id port [] = []
without id port (r ∷ rs) =
    let rest = without id port rs in if has_key id port r then rest else r ∷ rest

row_at-without :
    (id : ℤ) (port : ℕ) (rs : List NetworkRow) → row_at id port (without id port rs) ≡ none
row_at-without id port [] = refl
row_at-without id port (r ∷ rs) = ground (arith, row_at-without id port rs)

abbrev delete_at : ℤ → ℕ → Option NetworkRow → M (List NetworkRow) ℕ
delete_at id port none rs = (ok 0, rs)
delete_at id port (some r) rs = (ok 1, without id port rs)

abbrev delete_rows : Where → M (List NetworkRow) ℕ
delete_rows (at_port id port) rs = delete_at id port (row_at id port rs) rs
delete_rows (at_instance id) rs = (ok 0, [])

abbrev first_row : Where → M (List NetworkRow) NetworkRow
first_row (at_port id port) rs = (row_or_error (row_at id port rs), rs)
first_row (at_instance id) rs = (err (sentinel record_not_found), rs)

abbrev table : NetworkTable (List NetworkRow)
table = record {
  create = λ r rs. (ok tt, stored_row r 5 5 ∷ rs);
  updates = λ at set rs. (ok 1, rs);
  delete = delete_rows;
  first = first_row;
  find = λ at rs. (ok rs, rs);
}

table-KeepsTable : KeepsTable table row_at
table-KeepsTable = record {
  reads = λ id port rs. refl;
  inserts =
      λ r rs succeeds. (5, 5, ground (arith, (int_eq_iff r.instance_id r.instance_id).1 refl));
  deletes = λ id port r rs there.
      (without id port rs, ap (λ o. delete_at id port o rs) there, row_at-without id port rs);
  deletes_none = λ id port rs missing. ap (λ o. delete_at id port o rs) missing;
}

abbrev ssh_binding : NetworkBinding
ssh_binding = record {
  instance_id = pos 7;
  port = 22;
  service_name = "instance-7-22";
  service_port = 22;
  external_port = some 30000;
  ingress_name = none;
  protocol = "TCP";
  access_url = "10.0.0.9:30000";
  enabled = true;
  created_at = 0;
  updated_at = 0;
}

binding_round_trip_example :
    let rs = (create_network_binding table clock ssh_binding []).1 in
    let (deleted, rs') = delete_network_binding table clock (pos 7) 22 rs in
    ((created : ℕ) × (updated : ℕ) × (get_network_binding table clock (pos 7) 22 rs
        ≡ (ok (some (record ssh_binding { created_at = created; updated_at = updated })), rs)))
    × (deleted ≡ ok tt)
    × (get_network_binding table clock (pos 7) 22 rs' ≡ (ok none, rs'))
    × (delete_network_binding table clock (pos 7) 22 rs' ≡ (err (sentinel record_not_found), rs'))
binding_round_trip_example =
    binding_round_trip clock table-KeepsTable ssh_binding [] refl named succeeds
  where
    named : ssh_binding.protocol ≢ ""
    named = ground (arith, eq_iff "TCP" "")

    succeeds : (create_network_binding table clock ssh_binding []).0 ≡ ok tt
    succeeds = unfold create_network_binding in refl

network_repo-KeepsBindings_example :
    KeepsBindings
      (record quiet { network_repo = network_repo table clock })
      (IsOpen clock table-KeepsTable)
network_repo-KeepsBindings_example =
    network_repo-KeepsBindings clock table-KeepsTable quiet (λ a id port rs. refl)

abbrev stored_uc : ResourceUsecase (List NetworkRow)
stored_uc = record quiet { network_repo = network_repo table clock }

open_port_again_example :
    let rs = (open_port stored_uc (pos 7) "7" "u1" 22 "TCP" "" []).1 in
    open_port stored_uc (pos 7) "7" "u1" 22 "TCP" "" rs ≡ (ok "10.0.0.9:30000", rs)
open_port_again_example =
    open_port_again stored_uc
      (network_repo-KeepsBindings clock table-KeepsTable quiet (λ a id port rs. refl)) (pos 7) "7"
      "u1" 22 "TCP" "" "10.0.0.9:30000" [] opened
  where
    opened : (open_port stored_uc (pos 7) "7" "u1" 22 "TCP" "" []).0 ≡ ok "10.0.0.9:30000"
    opened =
        unfold open_port opened_url network_repo create_network_binding get_network_binding
          write_audit join itoa is_record_not_found in
        refl
