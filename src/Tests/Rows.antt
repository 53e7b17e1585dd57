-- ===== src/Tests/Rows.antt =====
-- The tables of instances in memory, and the instance repository over them.
use run_all_resource.Prelude.{
  ℤ, int_eq, int_eq_iff, pos, ◌≡◌, inl, refl, ap, true, false, Option, none, some, List, [], ◌∷◌,
  arith, if◌then◌else◌,
}
use run_all_resource.Go.{
  Error, sentinel, record_not_found, external, has_pg_code, Result, ok, err, M,
}
use run_all_resource.Biz.Types.{InstanceSpec}
use run_all_resource.Biz.Instance.Retry.{KeepsRows}
use run_all_resource.Data.Instances.{
  InstanceRow, SpecRow, Database, create_instance, list_resource_specs, instance_repo, spec_row,
}
use run_all_resource.Data.Instances.RoundTrip.{
  KeepsTables, rows_of, Stored, create-list_resource_specs, instance_repo-KeepsRows,
}
use run_all_resource.Tests.Sample.{web, quiet, clock}

pub record Tables : Type 0 where
  pub instances : List InstanceRow
  pub specs : List SpecRow

abbrev instance_at : ℤ → List InstanceRow → Option InstanceRow
instance_at id [] = none
instance_at id (r ∷ rs) = if int_eq r.instance_id id then some r else instance_at id rs

abbrev spec_at : ℤ → List SpecRow → Option SpecRow
spec_at id [] = none
spec_at id (r ∷ rs) = if int_eq r.instance_id id then some r else spec_at id rs

abbrev duplicate_key : Error
duplicate_key = external (record {
  text = "duplicate key value violates unique constraint";
  not_found = false;
  already_exists = false;
  pg_code = some "23505";
})

abbrev insert_unless : Option InstanceRow → InstanceRow → M Tables (Unit {0})
insert_unless none r w = (ok tt, record w { instances = r ∷ w.instances })
insert_unless (some old) r w = (err duplicate_key, w)

abbrev commit : Result (Unit {0}) × Tables → Tables → Result (Unit {0}) × Tables
commit (ok u, w') w = (ok tt, w')
commit (err e, w') w = (err e, w)

abbrev database : Database Tables
database = record {
  insert_instance = λ r w. insert_unless (instance_at r.instance_id w.instances) r w;
  insert_spec = λ r w. (ok tt, record w { specs = r ∷ w.specs });
  transaction = λ m w. commit (m w) w;
  find_instances = λ conditions w. (ok w.instances, w);
  first_instance = λ conditions w. (err (sentinel record_not_found), w);
  find_specs =
      λ ids w. elim ids [ [] ↦ (ok [], w) | id ∷ rest ↦ (ok (rows_of (spec_at id w.specs)), w) ];
  insert_log = λ r w. (ok tt, w);
}

inserts_first :
    (o : Option InstanceRow) (r : InstanceRow) (w : Tables)
    → (insert_unless o r w).0 ≡ ok tt
    → instance_at r.instance_id (insert_unless o r w).1.instances ≡ some r
inserts_first none r w succeeds = ground (arith, (int_eq_iff r.instance_id r.instance_id).1 refl)
inserts_first (some old) r w succeeds = cc

refuses_second :
    (o : Option InstanceRow) (r old : InstanceRow) (w : Tables)
    → o ≡ some old
    → (e : Error) × ((insert_unless o r w).0 ≡ err e) × (has_pg_code e "23505" ≡ true)
unfolding has_pg_code
refuses_second none r old w there = cc
refuses_second (some x) r old w there = (duplicate_key, refl, refl)

database-KeepsTables :
    KeepsTables database (λ id w. instance_at id w.instances) (λ id w. spec_at id w.specs)
database-KeepsTables = record {
  rolled_back = λ m w w' e runs. ap (λ x. commit x w) runs;
  committed = λ m w w' runs. inl (ap (λ x. commit x w) runs);
  inserts_row = λ r w succeeds. inserts_first (instance_at r.instance_id w.instances) r w succeeds;
  duplicate_row =
      λ r old w there. refuses_second (instance_at r.instance_id w.instances) r old w there;
  inserts_spec = λ r w succeeds. ground (arith, (int_eq_iff r.instance_id r.instance_id).1 refl);
  rows_apart = λ r w id. refl;
  finds_spec = λ id w. refl;
}

abbrev no_rows : Tables
no_rows = record { instances = []; specs = [] }

abbrev trained : InstanceSpec
trained = record web { gpu = 3 }

create-list_resource_specs_example :
    let w = (create_instance database clock trained no_rows).1 in
    list_resource_specs database clock (pos 7 ∷ []) w
    ≡ (ok ((pos 7, record web { user_id = ""; name = ""; gpu = 0 }) ∷ []), w)
create-list_resource_specs_example =
    create-list_resource_specs clock database-KeepsTables trained no_rows succeeds
  where
    succeeds : (create_instance database clock trained no_rows).0 ≡ ok tt
    succeeds = unfold create_instance spec_row in refl

instance_repo-KeepsRows_example :
    KeepsRows
      (record quiet { instance_spec = instance_repo database clock })
      (Stored clock database-KeepsTables)
instance_repo-KeepsRows_example =
    instance_repo-KeepsRows clock database-KeepsTables quiet (λ spec id w. refl)
