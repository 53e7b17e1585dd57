-- ===== src/Service/Listing/Items.antt =====
-- The items of the reply of ListResources of internal/service/resource.go, as a description of them.
use mathlib.Core.Path.{subst}
use run_all_resource.Prelude.{String, inl, inr, true, ◌≡◌, Option, none, some, List, [], ◌∷◌}
use run_all_resource.Go.{ok, then_with, then_with-ok}
use run_all_resource.Biz.Types.{Resource}
use run_all_resource.Service.FieldMask.{ResourceItem, empty_item}
use run_all_resource.Service.FieldMask.Masked.{all_known, masked, apply_resource_field_mask-masked}
use run_all_resource.Service.Listing.{item_of, masked_item, items_of}

-- a resource with all its fields
abbrev pub whole : Resource → ResourceItem
whole r = record {
  instance_id = r.instance_id;
  name = r.name;
  user_id = r.user_id;
  type = r.type;
  created_at = some r.created_at;
  updated_at = some r.updated_at;
}

-- What is shown of a resource: all of it without a mask or with an empty one; else the fields that the mask
-- names, and all its paths are known.
abbrev pub Shown : Option (List String) → Resource → ResourceItem → Type 0
Shown none r item = item ≡ whole r
Shown (some []) r item = item ≡ whole r
Shown (some (path ∷ paths)) r item =
    (all_known (path ∷ paths) ≡ true) × (item ≡ masked (whole r) (path ∷ paths) empty_item)

masked_item-Shown :
    (mask : Option (List String)) (r : Resource) (item : ResourceItem)
    → masked_item mask (item_of r) ≡ ok item
    → Shown mask r item
unfolding masked_item item_of
masked_item-Shown none r item h = cc
masked_item-Shown (some []) r item h = cc
masked_item-Shown (some (path ∷ paths)) r item h =
    elim (apply_resource_field_mask-masked (whole r) path paths).2 [
      | inl (known, keeps) ↦ (known, cc)
      | inr (unknown, (bad, is_bad, fails)) ↦ cc
    ]

-- Each item is what is shown of the resource at its place.
pub data ItemsFor (mask : Option (List String)) : List Resource → List ResourceItem → Type 0 where
  none_left : ItemsFor mask [] []
  next_item :
      (r : Resource) (item : ResourceItem) (rs : List Resource) (items : List ResourceItem)
      → Shown mask r item
      → ItemsFor mask rs items
      → ItemsFor mask (r ∷ rs) (item ∷ items)

pub items_of-ItemsFor :
    (mask : Option (List String)) (rs : List Resource) (items : List ResourceItem)
    → items_of mask rs ≡ ok items
    → ItemsFor mask rs items
unfolding items_of
items_of-ItemsFor mask [] [] h = none_left
items_of-ItemsFor mask [] (item ∷ items) h = cc
items_of-ItemsFor mask (r ∷ rs) items h =
    let append_to =
      λ (item : ResourceItem). then_with (items_of mask rs) (λ more. ok (item ∷ more)) in
    let (item, p, h1) = then_with-ok (masked_item mask (item_of r)) append_to items h in
    let (more, q, h2) = then_with-ok (items_of mask rs) (λ more. ok (item ∷ more)) items h1 in
    let same : item ∷ more ≡ items = cc in
    subst (ItemsFor mask (r ∷ rs)) same (
      next_item r item rs more (masked_item-Shown mask r item p) (items_of-ItemsFor mask rs more q))
