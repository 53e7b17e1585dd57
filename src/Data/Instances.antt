-- ===== src/Data/Instances.antt =====
-- resourceRepo of internal/data/resource.go over the calls of gorm on the tables instance and
-- instance_spec, and auditRepo of internal/data/audit.go.
pub mod RoundTrip
use run_all_resource.Prelude.{
  ℕ, String, ℤ, int_eq, Bool, true, false, Option, none, some, List, [], ◌∷◌, ◌++◌, ◌==◌, map,
  str_eq, if◌then◌else◌, length,
}
use run_all_resource.Go.{
  Error, plain, sentinel, instance_already_exists, record_not_found, errors_is, has_pg_code, Result,
  ok, err, M, pure, fail, attempt, ◌>>=◌, ◌>>◌,
}
use run_all_resource.Biz.Types.{InstanceSpec, Resource, ListResourcesFilter, AuditInformation}
use run_all_resource.Biz.Repos.{AuditRepo, InstanceRepo}

pub record InstanceRow : Type 0 where
  pub instance_id : ℤ
  pub user_id : String
  pub name : String
  pub status : String
  pub created_at : ℕ
  pub updated_at : ℕ
  pub deleted_at : Option ℕ

pub record SpecRow : Type 0 where
  pub instance_id : ℤ
  pub cpu : ℕ
  pub memory : ℕ
  pub gpu : Option ℕ
  pub image : String
  pub config_json : String

pub record LogRow : Type 0 where
  pub instance_id : ℤ
  pub log_type : String
  pub message : String
  pub data_json : String
  pub created_at : ℕ

-- the conditions of the queries on the table instance
pub data Condition : Type 0 where
  not_deleted : Condition
  user_is : String → Condition
  status_is : String → Condition
  created_from : ℕ → Condition
  created_to : ℕ → Condition
  id_is : ℤ → Condition

-- The calls of gorm. `transaction` runs its steps and takes them all back if one returns an error;
-- `find_instances` gives the rows that meet all conditions, the latest first.
pub record Database (W : Type 0) : Type 0 where
  pub insert_instance : InstanceRow → M W (Unit {0})
  pub insert_spec : SpecRow → M W (Unit {0})
  pub transaction : M W (Unit {0}) → M W (Unit {0})
  pub find_instances : List Condition → M W (List InstanceRow)
  pub first_instance : List Condition → M W InstanceRow
  pub find_specs : List ℤ → M W (List SpecRow)
  pub insert_log : LogRow → M W (Unit {0})

abbrev when_some : {A : Type 0} → Option A → (A → Condition) → List Condition
when_some none f = []
when_some (some a) f = f a ∷ []

-- a type filter that is the empty text is none
abbrev status_filter : Option String → List Condition
status_filter none = []
status_filter (some s) = if str_eq s "" then [] else status_is s ∷ []

unfoldable pub conditions_of : ListResourcesFilter → List Condition
conditions_of f =
    not_deleted
    ∷ (when_some f.user_id user_is
        ++ status_filter f.type
        ++ when_some f.start created_from
        ++ when_some f.end created_to)

unfoldable pub resource_of_row : InstanceRow → Resource
resource_of_row r = record {
  instance_id = r.instance_id;
  name = r.name;
  user_id = r.user_id;
  type = r.status;
  created_at = r.created_at;
  updated_at = r.updated_at;
}

abbrev gpu_or_zero : Option ℕ → ℕ
gpu_or_zero none = 0
gpu_or_zero (some gpu) = gpu

unfoldable pub spec_of_row : SpecRow → InstanceSpec
spec_of_row r = record {
  instance_id = r.instance_id;
  user_id = "";
  name = "";
  cpu = r.cpu;
  memory = r.memory;
  gpu = gpu_or_zero r.gpu;
  image = r.image;
  config_json = r.config_json;
}

-- `out[row.InstanceID] = …`: a map by identifier, in which a later row replaces an earlier one
unfoldable pub put_spec : List (ℤ × InstanceSpec) → ℤ → InstanceSpec → List (ℤ × InstanceSpec)
put_spec [] id spec = (id, spec) ∷ []
put_spec ((i, s) ∷ m) id spec =
    let rest = put_spec m id spec in if int_eq i id then (id, spec) ∷ m else (i, s) ∷ rest

unfoldable pub specs_of_rows : List SpecRow → List (ℤ × InstanceSpec) → List (ℤ × InstanceSpec)
specs_of_rows [] out = out
specs_of_rows (r ∷ rows) out = specs_of_rows rows (put_spec out r.instance_id (spec_of_row r))

-- the row of a specification, in which the code sets no GPU
unfoldable pub spec_row : InstanceSpec → SpecRow
spec_row spec = record {
  instance_id = spec.instance_id;
  cpu = spec.cpu;
  memory = spec.memory;
  gpu = none;
  image = spec.image;
  config_json = spec.config_json;
}

abbrev pub instance_row : InstanceSpec → ℕ → ℕ → InstanceRow
instance_row spec created updated = record {
  instance_id = spec.instance_id;
  user_id = spec.user_id;
  name = spec.name;
  status = "CREATING";
  created_at = created;
  updated_at = updated;
  deleted_at = none;
}

-- a violated key of PostgreSQL says that the instance exists
unfoldable pub existing_error : Error → Error
existing_error e = if has_pg_code e "23505" then sentinel instance_already_exists else e

module _ {W : Type 0} where
  inserted : Result (Unit {0}) → M W (Unit {0})
  inserted (ok _) = pure tt
  inserted (err e) = fail (existing_error e)

  found_or_nil : Result InstanceRow → M W (Option Resource)
  found_or_nil (ok row) = pure (some (resource_of_row row))
  found_or_nil (err e) = if errors_is e record_not_found then pure none else fail e

module _ {W : Type 0} (db : Database W) (clock : W → ℕ) where
  unfoldable pub list_resources : ListResourcesFilter → M W (List Resource)
  list_resources filter =
      db.find_instances (conditions_of filter) >>= λ rows. pure (map resource_of_row rows)

  -- no query where there are no identifiers
  unfoldable pub list_resource_specs : List ℤ → M W (List (ℤ × InstanceSpec))
  list_resource_specs ids =
      let query = db.find_specs ids >>= λ rows. pure (specs_of_rows rows []) in
      if length ids == 0 then pure [] else query

  -- both rows in one transaction
  unfoldable pub create_instance : InstanceSpec → M W (Unit {0})
  unfolding inserted
  create_instance spec w =
      db.transaction
        ((attempt (db.insert_instance (instance_row spec (clock w) (clock w))) >>= inserted)
          >> (attempt (db.insert_spec (spec_row spec)) >>= inserted))
        w

  unfoldable pub get_resource : ℤ → M W (Option Resource)
  unfolding found_or_nil
  get_resource id = attempt (db.first_instance (id_is id ∷ [])) >>= found_or_nil

  unfoldable pub instance_repo : InstanceRepo W
  instance_repo = record {
    create_instance = create_instance;
    list_resources = list_resources;
    get_resource = get_resource;
    list_resource_specs = list_resource_specs;
  }

  -- a record without a time gets the present one
  unfoldable pub log_row : AuditInformation → ℕ → LogRow
  log_row info time = record {
    instance_id = info.instance_id;
    log_type = info.log_type;
    message = info.message;
    data_json = info.data_json;
    created_at = if info.created_at == 0 then time else info.created_at;
  }

  unfoldable pub create_audit : AuditInformation → M W (Unit {0})
  create_audit info w = db.insert_log (log_row info (clock w)) w

module _ {W : Type 0} where
  -- the test of CreateAudit for a database that is nil
  unfoldable pub create_audit_with :
      Option (Database W) → (W → ℕ) → AuditInformation → M W (Unit {0})
  create_audit_with none clock info = fail (plain "postgres database not initialized")
  create_audit_with (some db) clock info = create_audit db clock info
