-- ===== src/Tests/Listing.antt =====
-- ListResources at a concrete input.
use run_all_resource.Prelude.{ℕ, String, pos, ◌≡◌, refl, none, some, [], ◌∷◌}
use run_all_resource.Go.{plain, Result, ok, err}
use run_all_resource.Go.Decimal.{itoa, format_int}
use run_all_resource.Biz.Repos.{ResourceUsecase}
use run_all_resource.Biz.Instance.{list_resources, list_resource_specs}
use run_all_resource.Service.FieldMask.{
  apply_resource_field_mask, copy_paths, copy_path, empty_item,
}
use run_all_resource.Service.Listing.{
  ListResourcesReq, ListResourcesReply, items_of, item_of, masked_item, filter_of, spec_entry,
  spec_entries, list_resources_handler,
}
use run_all_resource.Service.Listing.Replies.{ReplyFor, list_resources_handler-ReplyFor}
use run_all_resource.Tests.Sample.{World, with_instance, sample, sample_instances, resource_of, web}

abbrev stocked : ResourceUsecase World
stocked = record (sample (ok tt)) {
  instance_spec = record sample_instances {
    list_resources = λ filter w. (ok (resource_of (pos 7) ∷ []), w);
    list_resource_specs = λ ids w. (ok ((pos 7, web) ∷ []), w);
  };
}

abbrev no_json : String → Result ℕ
no_json json = err (plain "invalid JSON")

abbrev names_only : ListResourcesReq
names_only = record {
  user_id = some "u1";
  start = none;
  end = none;
  type = none;
  field_mask = some ("name" ∷ []);
}

abbrev listed : ListResourcesReply ℕ
listed = record {
  resources = record empty_item { name = "web" } ∷ [];
  specs =
      (
        "7",
        record {
          instance_id = pos 7;
          cpu_cores = 2;
          memory_size = 4096;
          gpu = 0;
          image = "nginx";
          custom_config = none;
        },
      )
      ∷ [];
}

list_resources_handler-ReplyFor_example :
    ReplyFor stocked no_json names_only with_instance listed (pos 7)
list_resources_handler-ReplyFor_example =
    list_resources_handler-ReplyFor stocked no_json names_only with_instance listed (pos 7) replied
  where
    replied : (list_resources_handler stocked no_json (some names_only) with_instance).0 ≡ ok listed
    replied =
        unfold list_resources_handler list_resources list_resource_specs filter_of items_of item_of
          masked_item apply_resource_field_mask copy_paths copy_path spec_entries spec_entry
          format_int itoa in
        refl
