-- ===== src/Service/FieldMask.antt =====
-- applyResourceFieldMask of internal/service/resource.go, and the `Resource` message of
-- api/resource/v1. A nil message is `none`, and an absent timestamp too.
pub mod Masked
use run_all_resource.Prelude.{
  ℕ, String, append, ℤ, pos, Bool, ◌||◌, Option, none, some, List, [], ◌∷◌, str_eq, if◌then◌else◌,
}
use run_all_resource.Go.{Error, kratos, Result, ok, err, then_with}

pub record ResourceItem : Type 0 where
  pub instance_id : ℤ
  pub name : String
  pub user_id : String
  pub type : String
  pub created_at : Option ℕ
  pub updated_at : Option ℕ

-- `&v1.Resource{}`
abbrev pub empty_item : ResourceItem
empty_item = record {
  instance_id = pos 0;
  name = "";
  user_id = "";
  type = "";
  created_at = none;
  updated_at = none;
}

abbrev pub is_either : String → String → String → Bool
is_either path a b = str_eq path a || str_eq path b

-- one round of the loop over the paths
unfoldable pub copy_path : ResourceItem → String → ResourceItem → Result ResourceItem
copy_path input path out =
    if is_either path "instance_id" "instanceId"
    then ok (record out { instance_id = input.instance_id })
    else if str_eq path "name"
    then ok (record out { name = input.name })
    else if is_either path "user_id" "userId"
    then ok (record out { user_id = input.user_id })
    else if str_eq path "type"
    then ok (record out { type = input.type })
    else if is_either path "created_at" "createdAt"
    then ok (record out { created_at = input.created_at })
    else if is_either path "updated_at" "updatedAt"
    then ok (record out { updated_at = input.updated_at })
    else err (kratos 400 "INVALID_FIELD_MASK" (append "unknown field mask path: " path))

unfoldable pub copy_paths : ResourceItem → List String → ResourceItem → Result ResourceItem
copy_paths input [] out = ok out
copy_paths input (path ∷ paths) out = then_with (copy_path input path out) (copy_paths input paths)

-- a nil mask, or one without paths, keeps the resource whole
unfoldable pub apply_resource_field_mask :
    Option ResourceItem → Option (List String) → Result ResourceItem
apply_resource_field_mask none mask = err (kratos 400 "INVALID_ARGUMENT" "resource is required")
apply_resource_field_mask (some input) none = ok input
apply_resource_field_mask (some input) (some []) = ok input
apply_resource_field_mask (some input) (some (path ∷ paths)) =
    copy_paths input (path ∷ paths) empty_item
