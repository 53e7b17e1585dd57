-- ===== src/Data/Instances/RoundTrip.antt =====
-- The tables of instances, and what resourceRepo writes to them and reads back.
use run_all_resource.Prelude.{
  ℕ, ℤ, ◌≡◌, ◌⊎◌, inl, inr, refl, sym, ap, ◌∙◌, true, Option, none, some, List, [], ◌∷◌, arith,
}
use run_all_resource.Go.{
  Error, sentinel, instance_already_exists, errors_is, has_pg_code, Result, ok, err, M, pure,
  attempt, ◌>>=◌, ◌>>◌,
}
use run_all_resource.Biz.Types.{InstanceSpec}
use run_all_resource.Biz.Repos.{ResourceUsecase}
use run_all_resource.Biz.Instance.Retry.{KeepsRows}
use run_all_resource.Data.Instances.{
  InstanceRow, SpecRow, Database, instance_row, spec_row, spec_of_row, put_spec, specs_of_rows,
  existing_error, inserted, create_instance, list_resource_specs, instance_repo,
}

abbrev pub rows_of : Option SpecRow → List SpecRow
rows_of none = []
rows_of (some r) = r ∷ []

-- The tables of PostgreSQL through gorm: what is inserted is found, a second row with a key is refused
-- with the code 23505, and a transaction that fails leaves nothing.
pub record KeepsTables {W : Type 0} (db : Database W) (row_at : ℤ → W → Option InstanceRow)
    (spec_at : ℤ → W → Option SpecRow) : Type 0 where
  pub rolled_back :
      (m : M W (Unit {0})) (w w' : W) (e : Error)
      → m w ≡ (err e, w')
      → db.transaction m w ≡ (err e, w)
  pub committed :
      (m : M W (Unit {0})) (w w' : W)
      → m w ≡ (ok tt, w')
      → (db.transaction m w ≡ (ok tt, w')) ⊎ ((e : Error) × (db.transaction m w ≡ (err e, w)))
  pub inserts_row :
      (r : InstanceRow) (w : W)
      → (db.insert_instance r w).0 ≡ ok tt
      → row_at r.instance_id (db.insert_instance r w).1 ≡ some r
  pub duplicate_row :
      (r old : InstanceRow) (w : W)
      → row_at r.instance_id w ≡ some old
      → (e : Error) × ((db.insert_instance r w).0 ≡ err e) × (has_pg_code e "23505" ≡ true)
  pub inserts_spec :
      (r : SpecRow) (w : W)
      → (db.insert_spec r w).0 ≡ ok tt
      → spec_at r.instance_id (db.insert_spec r w).1 ≡ some r
  pub rows_apart : (r : SpecRow) (w : W) (id : ℤ) → row_at id (db.insert_spec r w).1 ≡ row_at id w
  pub finds_spec : (id : ℤ) (w : W) → db.find_specs (id ∷ []) w ≡ (ok (rows_of (spec_at id w)), w)

module _ {W : Type 0} {db : Database W} (clock : W → ℕ) {row_at : ℤ → W → Option InstanceRow}
    {spec_at : ℤ → W → Option SpecRow} (keeps : KeepsTables db row_at spec_at) where
  abbrev body : InstanceSpec → W → M W (Unit {0})
  body spec w =
      (attempt (db.insert_instance (instance_row spec (clock w) (clock w))) >>= inserted)
      >> (attempt (db.insert_spec (spec_row spec)) >>= inserted)

  both_written :
      (spec : InstanceSpec) (w w' : W)
      → body spec w w ≡ (ok tt, w')
      → (row_at spec.instance_id w' ≡ some (instance_row spec (clock w) (clock w)))
        × (spec_at spec.instance_id w' ≡ some (spec_row spec))
  unfolding inserted spec_row
  both_written spec w w' runs =
      let row = instance_row spec (clock w) (clock w) in
      let w1 = (db.insert_instance row w).1 in
      ground (
        arith,
        keeps.inserts_row row w,
        keeps.inserts_spec (spec_row spec) w1,
        keeps.rows_apart (spec_row spec) w1 spec.instance_id,
      )

  after_create :
      (spec : InstanceSpec) (w : W) (x : Result (Unit {0}) × W)
      → body spec w w ≡ x
      → (create_instance db clock spec w).0 ≡ ok tt
      → body spec w w ≡ (ok tt, (create_instance db clock spec w).1)
  unfolding create_instance
  after_create spec w (err e, w') runs created =
      let refused : create_instance db clock spec w ≡ (err e, w) =
        keeps.rolled_back (body spec w) w w' e runs in
      let failed_too : (create_instance db clock spec w).0 ≡ err e =
        ap (λ (p : Result (Unit {0}) × W). p.0) refused in
      cc
  after_create spec w (ok _, w') runs created = elim (keeps.committed (body spec w) w w' runs) [
    | inl done ↦
        runs ∙ ap (λ (s : W). (ok tt, s)) (sym (ap (λ (p : Result (Unit {0}) × W). p.1) done))
    | inr (e, failed) ↦
        let refused : create_instance db clock spec w ≡ (err e, w) = failed in
        let failed_too : (create_instance db clock spec w).0 ≡ err e =
          ap (λ (p : Result (Unit {0}) × W). p.0) refused in
        cc
  ]

  -- both rows are there after a creation that succeeds
  created :
      (spec : InstanceSpec) (w : W)
      → (create_instance db clock spec w).0 ≡ ok tt
      → let w' = (create_instance db clock spec w).1 in
        (row_at spec.instance_id w' ≡ some (instance_row spec (clock w) (clock w)))
        × (spec_at spec.instance_id w' ≡ some (spec_row spec))
  created spec w succeeds =
      both_written spec w (create_instance db clock spec w).1
        (after_create spec w (body spec w w) refl succeeds)

  -- A specification that is stored and read back comes without its GPU type, as type 0, whatever was
  -- asked for, and with its cores, memory, image and configuration.
  pub create-list_resource_specs :
      (spec : InstanceSpec) (w : W)
      → (create_instance db clock spec w).0 ≡ ok tt
      → let w' = (create_instance db clock spec w).1 in
        list_resource_specs db clock (spec.instance_id ∷ []) w'
        ≡ (ok ((spec.instance_id, record spec { user_id = ""; name = ""; gpu = 0 }) ∷ []), w')
  unfolding list_resource_specs specs_of_rows put_spec spec_of_row spec_row
  create-list_resource_specs spec w succeeds =
      let w' = (create_instance db clock spec w).1 in
      ap
        (λ (x : Result (List SpecRow) × W).
          ((λ (s : W). x) >>= (λ rows. pure (specs_of_rows rows []))) w')
        (keeps.finds_spec spec.instance_id w')
      ∙ ap (λ (o : Option SpecRow). (ok (specs_of_rows (rows_of o) []), w'))
          (created spec w succeeds).1

  abbrev pub Stored : ℤ → W → Type 0
  Stored id w = (old : InstanceRow) × (row_at id w ≡ some old)

  refuses :
      (spec : InstanceSpec) (w : W)
      → Stored spec.instance_id w
      → (e : Error) × (create_instance db clock spec w ≡ (err e, w))
        × (errors_is e instance_already_exists ≡ true)
  unfolding create_instance inserted existing_error errors_is
  refuses spec w (old, there) =
      let row = instance_row spec (clock w) (clock w) in
      let (e, refused, coded) = keeps.duplicate_row row old w there in
      (
        sentinel instance_already_exists,
        keeps.rolled_back (body spec w) w (db.insert_instance row w).1
            (sentinel instance_already_exists) (ground arith),
        refl,
      )

  -- resourceRepo keeps the promise that CreateInstance relies on, beside a cluster whose calls leave the
  -- tables alone: the row of a creation that succeeds stays, and a second creation of the instance is
  -- refused with ErrInstanceAlreadyExists and changes nothing.
  pub instance_repo-KeepsRows :
      (uc : ResourceUsecase W)
      → ((spec : InstanceSpec) (id : ℤ) (w : W)
          → row_at id (uc.k8s_repo.create_instance spec w).1 ≡ row_at id w)
      → KeepsRows (record uc { instance_spec = instance_repo db clock }) Stored
  unfolding instance_repo
  instance_repo-KeepsRows uc apart = record {
    stored =
        λ spec w succeeds. (instance_row spec (clock w) (clock w), (created spec w succeeds).0);
    refused = refuses;
    kept_by_cluster = λ spec id w there. (there.0, apart spec id w ∙ there.1);
  }
