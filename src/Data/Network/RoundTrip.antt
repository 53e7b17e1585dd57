-- ===== src/Data/Network/RoundTrip.antt =====
-- The table of port bindings, and what networkRepo writes to it and reads back.
use run_all_resource.Prelude.{
  ℕ, String, ℤ, ◌≡◌, ◌≢◌, refl, ap, ◌∙◌, true, Option, none, some, arith, str_eq, eq_iff,
  if◌then◌else◌,
}
use run_all_resource.Go.{sentinel, record_not_found, Result, ok, err}
use run_all_resource.Biz.Types.{NetworkBinding, AuditInformation}
use run_all_resource.Biz.Repos.{ResourceUsecase}
use run_all_resource.Biz.Ports.Again.{KeepsBindings}
use run_all_resource.Data.Network.{
  NetworkRow, NetworkTable, at_port, row_of, binding_of_row, is_record_not_found, affected,
  found_or_nil, create_network_binding, delete_network_binding, get_network_binding, network_repo,
}

-- The columns with a default get it where the field is the zero value; the times are the database's.
abbrev pub stored_row : NetworkRow → ℕ → ℕ → NetworkRow
stored_row r created updated = record r {
  protocol = if str_eq r.protocol "" then "HTTP" else r.protocol;
  enabled = true;
  created_at = created;
  updated_at = updated;
}

abbrev pub row_or_error : Option NetworkRow → Result NetworkRow
row_or_error none = err (sentinel record_not_found)
row_or_error (some r) = ok r

-- The table instance_network through gorm, whose key is the instance with the port.
pub record KeepsTable {W : Type 0} (table : NetworkTable W) (row_at : ℤ → ℕ → W → Option NetworkRow)
    : Type 0 where
  pub reads :
      (id : ℤ) (port : ℕ) (w : W)
      → table.first (at_port id port) w ≡ (row_or_error (row_at id port w), w)
  pub inserts :
      (r : NetworkRow) (w : W)
      → (table.create r w).0 ≡ ok tt
      → (created : ℕ) × (updated : ℕ) × (row_at r.instance_id r.port (table.create r w).1
          ≡ some (stored_row r created updated))
  pub deletes :
      (id : ℤ) (port : ℕ) (r : NetworkRow) (w : W)
      → row_at id port w ≡ some r
      → (w' : W) × (table.delete (at_port id port) w ≡ (ok 1, w')) × (row_at id port w' ≡ none)
  pub deletes_none :
      (id : ℤ) (port : ℕ) (w : W)
      → row_at id port w ≡ none
      → table.delete (at_port id port) w ≡ (ok 0, w)

module _ {W : Type 0} {table : NetworkTable W} (clock : W → ℕ)
    {row_at : ℤ → ℕ → W → Option NetworkRow} (keeps : KeepsTable table row_at) where
  get_present :
      (id : ℤ) (port : ℕ) (r : NetworkRow) (w : W)
      → row_at id port w ≡ some r
      → get_network_binding table clock id port w ≡ (ok (some (binding_of_row r)), w)
  unfolding get_network_binding found_or_nil
  get_present id port r w there = ground (arith, keeps.reads id port w, there)

  get_absent :
      (id : ℤ) (port : ℕ) (w : W)
      → row_at id port w ≡ none
      → get_network_binding table clock id port w ≡ (ok none, w)
  unfolding get_network_binding found_or_nil is_record_not_found
  get_absent id port w missing = ground (arith, keeps.reads id port w, missing)

  delete_present :
      (id : ℤ) (port : ℕ) (r : NetworkRow) (w : W)
      → row_at id port w ≡ some r
      → ((delete_network_binding table clock id port w).0 ≡ ok tt)
        × (row_at id port (delete_network_binding table clock id port w).1 ≡ none)
  unfolding delete_network_binding affected
  delete_present id port r w there =
      let (w', deleted, gone) = keeps.deletes id port r w there in ground (arith, deleted, gone)

  delete_absent :
      (id : ℤ) (port : ℕ) (w : W)
      → row_at id port w ≡ none
      → delete_network_binding table clock id port w ≡ (err (sentinel record_not_found), w)
  unfolding delete_network_binding affected
  delete_absent id port w missing = ground (arith, keeps.deletes_none id port w missing)

  -- A binding that is written, enabled and with a protocol, is found as it was written but for its times;
  -- when it is deleted it is not found any more, and a second deletion reports that there is no record.
  pub binding_round_trip :
      (b : NetworkBinding) (w : W)
      → b.enabled ≡ true
      → b.protocol ≢ ""
      → (create_network_binding table clock b w).0 ≡ ok tt
      → let w1 = (create_network_binding table clock b w).1 in
        let (deleted, w2) = delete_network_binding table clock b.instance_id b.port w1 in
        ((created : ℕ) × (updated : ℕ) × (get_network_binding table clock b.instance_id b.port w1
            ≡ (ok (some (record b { created_at = created; updated_at = updated })), w1)))
        × (deleted ≡ ok tt)
        × (get_network_binding table clock b.instance_id b.port w2 ≡ (ok none, w2))
        × (delete_network_binding table clock b.instance_id b.port w2
            ≡ (err (sentinel record_not_found), w2))
  binding_round_trip b w enabled protocol succeeds =
      let w1 = (create_network_binding table clock b w).1 in
      let w2 = (delete_network_binding table clock b.instance_id b.port w1).1 in
      let (created, updated, there) = written in
      let (deleted, gone) = delete_present b.instance_id b.port _ w1 there in
      (
        (
          created,
          updated,
          get_present b.instance_id b.port _ w1 there
              ∙ ap (λ (x : NetworkBinding). (ok (some x), w1)) (as_written created updated),
        ),
        deleted,
        get_absent b.instance_id b.port w2 gone,
        delete_absent b.instance_id b.port w2 gone,
      )
    where
      written :
          (created : ℕ) × (updated : ℕ) × (row_at b.instance_id b.port
              (create_network_binding table clock b w).1
            ≡ some (stored_row (row_of b) created updated))
      written = unfold create_network_binding row_of in keeps.inserts (row_of b) w succeeds

      as_written :
          (created updated : ℕ)
          → binding_of_row (stored_row (row_of b) created updated)
            ≡ record b { created_at = created; updated_at = updated }
      as_written created updated =
          unfold binding_of_row row_of in ground (arith, enabled, eq_iff b.protocol "")

  abbrev pub IsOpen : ℤ → ℕ → String → W → Type 0
  IsOpen id port url w =
      (r : NetworkRow) × (row_at id port w ≡ some r) × (r.enabled ≡ true) × (r.access_url ≡ url)

  network_repo-opens :
      (b : NetworkBinding) (w : W)
      → (create_network_binding table clock b w).0 ≡ ok tt
      → IsOpen b.instance_id b.port b.access_url (create_network_binding table clock b w).1
  unfolding create_network_binding row_of
  network_repo-opens b w succeeds =
      let (created, updated, there) = keeps.inserts (row_of b) w succeeds in
      (stored_row (row_of b) created updated, there, refl, refl)

  get-unchanged :
      (id : ℤ) (port : ℕ) (w : W) (o : Option NetworkRow)
      → row_at id port w ≡ o
      → (get_network_binding table clock id port w).1 ≡ w
  get-unchanged id port w none there =
      ap (λ (x : Result (Option NetworkBinding) × W). x.1) (get_absent id port w there)
  get-unchanged id port w (some r) there =
      ap (λ (x : Result (Option NetworkBinding) × W). x.1) (get_present id port r w there)

  -- networkRepo keeps the promise that opening a port relies on, beside audit records that leave the
  -- table alone: a lookup changes nothing, and a binding that was written is found open with its URL.
  pub network_repo-KeepsBindings :
      (uc : ResourceUsecase W)
      → ((a : AuditInformation) (id : ℤ) (port : ℕ) (w : W)
          → row_at id port (uc.audit_repo.create_audit a w).1 ≡ row_at id port w)
      → KeepsBindings (record uc { network_repo = network_repo table clock }) IsOpen
  unfolding network_repo binding_of_row
  network_repo-KeepsBindings uc apart = record {
    reads = λ id port w. get-unchanged id port w (row_at id port w) refl;
    opens = λ b w enabled succeeds. network_repo-opens b w succeeds;
    found = λ id port url w is_open.
        let (r, there, on, same) = is_open in
        (binding_of_row r, get_present id port r w there, on, same);
    kept_by_audit = λ a id port url w is_open.
        let (r, there, on, same) = is_open in (r, apart a id port w ∙ there, on, same);
  }
