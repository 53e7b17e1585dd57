-- ===== src/Biz/Instance.antt =====
-- The instance operations of the use case, internal/biz/resource.go.
pub mod Effects
pub mod Retry
use run_all_resource.Prelude.{ℕ, String, append, ℤ, Option, none, some, List, [], ◌∷◌}
use run_all_resource.Prelude.{if◌then◌else◌}
use run_all_resource.Go.{
  Error, plain, instance_already_exists, errors_is, Result, ok, err, M, pure, fail, attempt, ignore,
  ◌>>=◌, ◌>>◌,
}
use run_all_resource.Go.Decimal.{itoa, format_int}
use run_all_resource.Biz.Types.{InstanceSpec, Resource, ListResourcesFilter, AuditInformation}
use run_all_resource.Biz.Repos.{ResourceUsecase, now}

unfoldable pub join : List String → String
join [] = ""
join (s ∷ rest) = append s (join rest)

unfoldable pub create_json : InstanceSpec → String
create_json spec = join (
    "{\"cpu\":"
    ∷ itoa spec.cpu
    ∷ ",\"memory\":"
    ∷ itoa spec.memory
    ∷ ",\"GPU\":"
    ∷ itoa spec.gpu
    ∷ "}"
    ∷ [])

update_json : ℕ → ℕ → ℕ → String → String
update_json cpu memory gpu image = join (
    "{\"cpu\":"
    ∷ itoa cpu
    ∷ ",\"memory\":"
    ∷ itoa memory
    ∷ ",\"GPU\":"
    ∷ itoa gpu
    ∷ ",\"image\":\""
    ∷ image
    ∷ "\"}"
    ∷ [])

abbrev audit_of : ℤ → String → String → String → ℕ → AuditInformation
audit_of id log_type message data_json created_at = record {
  instance_id = id;
  log_type = log_type;
  message = message;
  data_json = data_json;
  created_at = created_at;
}

unfoldable pub instance_not_found : Error
instance_not_found = plain "instance not found"

module _ {W : Type 0} (uc : ResourceUsecase W) where
  -- The audit record is written with the time of the call.
  unfoldable pub write_audit : ℤ → String → String → String → M W (Unit {0})
  write_audit id log_type message data_json = do
    time ← now uc
    uc.audit_repo.create_audit (audit_of id log_type message data_json time)

  -- what CreateInstance does after the call of the instance repository
  after_create : InstanceSpec → Result (Unit {0}) → M W (Unit {0})
  after_create spec (err e) = if errors_is e instance_already_exists then pure tt else fail e
  after_create spec (ok _) = do
    uc.k8s_repo.create_instance spec
    write_audit spec.instance_id "CREATE" "Instance created" (create_json spec)

  unfoldable pub create_instance : InstanceSpec → M W (Unit {0})
  unfolding after_create create_json
  create_instance spec = do
    created ← attempt (uc.instance_spec.create_instance spec)
    after_create spec created

  unfoldable pub list_resources : ListResourcesFilter → M W (List Resource)
  list_resources filter = uc.instance_spec.list_resources filter

  unfoldable pub list_resource_specs : List ℤ → M W (List (ℤ × InstanceSpec))
  list_resource_specs ids = uc.instance_spec.list_resource_specs ids

  unfoldable pub get_resource : ℤ → M W (Option Resource)
  get_resource id = uc.instance_spec.get_resource id

  or_not_found : Option Resource → M W Resource
  or_not_found none = fail instance_not_found
  or_not_found (some r) = pure r

  -- the first steps of every operation on an instance: `GetResource`, and the test of its result
  unfoldable pub require_resource : ℤ → M W Resource
  unfolding get_resource or_not_found
  require_resource id = do found ← get_resource id; or_not_found found

  unfoldable pub delete_instance : ℤ → M W (Unit {0})
  delete_instance id = do
    resource ← require_resource id
    attempt (uc.network_repo.batch_delete_network_bindings id)
    uc.k8s_repo.delete_instance resource.user_id (format_int id)
    ignore (write_audit id "DELETE" "Instance deleted" "{}")

  unfoldable pub stop_instance : ℤ → M W (Unit {0})
  stop_instance id = do
    resource ← require_resource id
    uc.k8s_repo.stop_instance resource.user_id (format_int id)
    ignore (write_audit id "STOP" "Instance stopped" "{}")

  unfoldable pub start_instance : ℤ → M W (Unit {0})
  start_instance id = do
    resource ← require_resource id
    uc.k8s_repo.start_instance resource.user_id (format_int id)
    ignore (write_audit id "START" "Instance started" "{}")

  abbrev update_spec : ℤ → Resource → ℕ → ℕ → ℕ → String → InstanceSpec
  update_spec id r cpu memory gpu image = record {
    instance_id = id;
    user_id = r.user_id;
    name = "";
    cpu = cpu;
    memory = memory;
    gpu = gpu;
    image = image;
    config_json = "";
  }

  unfoldable pub update_instance : ℤ → ℕ → ℕ → ℕ → String → M W (Unit {0})
  unfolding update_json
  update_instance id cpu memory gpu image = do
    r ← require_resource id
    uc.k8s_repo.update_instance (update_spec id r cpu memory gpu image)
    ignore (write_audit id "UPDATE" "Instance updated" (update_json cpu memory gpu image))
