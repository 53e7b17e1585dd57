-- ===== src/Service/Listing.antt =====
-- ListResources of internal/service/resource.go. Reading the JSON of a configuration is
-- `protojson.Unmarshal`, a parameter; a Go map is the list of its entries, so the specifications come
-- out in the order of the list, where Go takes any order.
pub mod Items
pub mod Replies
use run_all_resource.Prelude.{
  ℕ, String, ℤ, Bool, true, false, Option, none, some, List, [], ◌∷◌, ◌==◌, map, str_eq,
  if◌then◌else◌, length,
}
use run_all_resource.Go.{Error, kratos, Result, ok, err, then_with, M, pure, fail, ◌>>=◌}
use run_all_resource.Go.Decimal.{format_int}
use run_all_resource.Biz.Types.{Resource, ListResourcesFilter, InstanceSpec}
use run_all_resource.Biz.Repos.{ResourceUsecase}
use run_all_resource.Biz.Instance.{list_resources, list_resource_specs}
use run_all_resource.Service.FieldMask.{ResourceItem, apply_resource_field_mask}

-- the fields of the request; the mask is the list of its paths
pub record ListResourcesReq : Type 0 where
  pub user_id : Option String
  pub start : Option ℕ
  pub end : Option ℕ
  pub type : Option String
  pub field_mask : Option (List String)

pub record ResourceSpec (C : Type 0) : Type 0 where
  pub instance_id : ℤ
  pub cpu_cores : ℕ
  pub memory_size : ℕ
  pub gpu : ℕ
  pub image : String
  pub custom_config : Option C

-- `specs` is empty where the reply has no map
pub record ListResourcesReply (C : Type 0) : Type 0 where
  pub resources : List ResourceItem
  pub specs : List (String × ResourceSpec C)

unfoldable pub filter_of : ListResourcesReq → ListResourcesFilter
filter_of req = record { user_id = req.user_id; start = req.start; end = req.end; type = req.type }

unfoldable pub item_of : Resource → ResourceItem
item_of r = record {
  instance_id = r.instance_id;
  name = r.name;
  user_id = r.user_id;
  type = r.type;
  created_at = some r.created_at;
  updated_at = some r.updated_at;
}

-- `if mask != nil && len(mask.GetPaths()) > 0`
unfoldable pub masked_item : Option (List String) → ResourceItem → Result ResourceItem
masked_item none item = ok item
masked_item (some []) item = ok item
masked_item (some (path ∷ paths)) item = apply_resource_field_mask (some item) (some (path ∷ paths))

-- the loop over the resources, which stops at the first error
unfoldable pub items_of : Option (List String) → List Resource → Result (List ResourceItem)
items_of mask [] = ok []
items_of mask (r ∷ resources) =
    then_with (masked_item mask (item_of r))
      (λ item. then_with (items_of mask resources) (λ items. ok (item ∷ items)))

abbrev pub ids_of : List Resource → List ℤ
ids_of = map (λ r. r.instance_id)

module _ {C : Type 0} (unmarshal : String → Result C) where
  config_of : String → Result (Option C)
  config_of json =
      if str_eq json "" then ok none else then_with (unmarshal json) (λ config. ok (some config))

  unfoldable pub spec_entry : ℤ × InstanceSpec → Result (String × ResourceSpec C)
  unfolding config_of
  spec_entry (id, spec) = then_with (config_of spec.config_json) (λ config. ok (
    format_int id,
    record {
      instance_id = id;
      cpu_cores = spec.cpu;
      memory_size = spec.memory;
      gpu = spec.gpu;
      image = spec.image;
      custom_config = config;
    },
  ))

  unfoldable pub spec_entries : List (ℤ × InstanceSpec) → Result (List (String × ResourceSpec C))
  spec_entries [] = ok []
  spec_entries (s ∷ specs) =
      then_with (spec_entry s)
        (λ entry. then_with (spec_entries specs) (λ entries. ok (entry ∷ entries)))

module _ {W C : Type 0} (uc : ResourceUsecase W) (unmarshal : String → Result C) where
  abbrev lift : {A : Type 0} → Result A → M W A
  lift r w = (r, w)

  handle_list : ListResourcesReq → M W (ListResourcesReply C)
  handle_list req = do
    resources ← list_resources uc (filter_of req)
    items ← lift (items_of req.field_mask resources)
    specs ← list_resource_specs uc (ids_of resources)
    entries ← lift (spec_entries unmarshal specs)
    pure (record { resources = items; specs = entries })

  unfoldable pub list_resources_handler : Option ListResourcesReq → M W (ListResourcesReply C)
  unfolding handle_list
  list_resources_handler none = fail (kratos 400 "INVALID_ARGUMENT" "request is required")
  list_resources_handler (some req) = handle_list req
