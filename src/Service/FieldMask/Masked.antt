-- ===== src/Service/FieldMask/Masked.antt =====
-- What a field mask keeps of a resource, as a description that has no order.
use run_all_resource.Prelude.{
  String, Bool, true, false, ◌||◌, ◌&&◌, ◌≡◌, ◌⊎◌, refl, none, some, List, [], ◌∷◌, arith, str_eq,
  if◌then◌else◌, Bool-cases, inl, inr, ◌⊎◌, ap, ◌∙◌, append, eq_iff,
}
use run_all_resource.Go.{Error, kratos, ok, err, then_with}
use run_all_resource.Service.FieldMask.{
  ResourceItem, empty_item, is_either, copy_path, copy_paths, apply_resource_field_mask,
}

abbrev pub names : (String → Bool) → List String → Bool
names p [] = false
names p (path ∷ paths) = p path || names p paths

abbrev pub is_known : String → Bool
is_known path =
    is_either path "instance_id" "instanceId"
    || str_eq path "name"
    || is_either path "user_id" "userId"
    || str_eq path "type"
    || is_either path "created_at" "createdAt"
    || is_either path "updated_at" "updatedAt"

abbrev pub all_known : List String → Bool
all_known [] = true
all_known (path ∷ paths) = is_known path && all_known paths

-- The fields that the paths name come from `input`, the others from `out`.
abbrev pub masked : ResourceItem → List String → ResourceItem → ResourceItem
masked input paths out = record {
  instance_id =
      if names (λ p. is_either p "instance_id" "instanceId") paths
      then input.instance_id
      else out.instance_id;
  name = if names (λ p. str_eq p "name") paths then input.name else out.name;
  user_id =
      if names (λ p. is_either p "user_id" "userId") paths then input.user_id else out.user_id;
  type = if names (λ p. str_eq p "type") paths then input.type else out.type;
  created_at =
      if names (λ p. is_either p "created_at" "createdAt") paths
      then input.created_at
      else out.created_at;
  updated_at =
      if names (λ p. is_either p "updated_at" "updatedAt") paths
      then input.updated_at
      else out.updated_at;
}

abbrev KnownCases : String → Type 0
KnownCases path =
    (path ≡ "instance_id")
    ⊎ (path ≡ "instanceId")
    ⊎ (path ≡ "name")
    ⊎ (path ≡ "user_id")
    ⊎ (path ≡ "userId")
    ⊎ (path ≡ "type")
    ⊎ (path ≡ "created_at")
    ⊎ (path ≡ "createdAt")
    ⊎ (path ≡ "updated_at")
    ⊎ (path ≡ "updatedAt")

known_cases : (path : String) → is_known path ≡ true → KnownCases path
known_cases path known = ground (
  arith,
  eq_iff path "instance_id",
  eq_iff path "instanceId",
  eq_iff path "name",
  eq_iff path "user_id",
  eq_iff path "userId",
  eq_iff path "type",
  eq_iff path "created_at",
  eq_iff path "createdAt",
  eq_iff path "updated_at",
  eq_iff path "updatedAt",
)

masked_at :
    (input : ResourceItem) (path : String) (out : ResourceItem)
    → KnownCases path
    → copy_path input path out ≡ ok (masked input (path ∷ []) out)
unfolding copy_path
masked_at input path out (inl e) = rw e
masked_at input path out (inr (inl e)) = rw e
masked_at input path out (inr (inr (inl e))) = rw e
masked_at input path out (inr (inr (inr (inl e)))) = rw e
masked_at input path out (inr (inr (inr (inr (inl e))))) = rw e
masked_at input path out (inr (inr (inr (inr (inr (inl e)))))) = rw e
masked_at input path out (inr (inr (inr (inr (inr (inr (inl e))))))) = rw e
masked_at input path out (inr (inr (inr (inr (inr (inr (inr (inl e)))))))) = rw e
masked_at input path out (inr (inr (inr (inr (inr (inr (inr (inr (inl e))))))))) = rw e
masked_at input path out (inr (inr (inr (inr (inr (inr (inr (inr (inr e))))))))) = rw e

copy_path-masked :
    (input : ResourceItem) (path : String) (out : ResourceItem)
    → is_known path ≡ true
    → copy_path input path out ≡ ok (masked input (path ∷ []) out)
copy_path-masked input path out known = masked_at input path out (known_cases path known)

merge {ℓ} :
    {A : Type ℓ} (b c : Bool) (x y : A)
    → (if c then x else (if b || false then x else y)) ≡ (if b || c then x else y)
merge true true x y = refl
merge true false x y = refl
merge false true x y = refl
merge false false x y = refl

masked-masked :
    (input : ResourceItem) (path : String) (paths : List String) (out : ResourceItem)
    → masked input paths (masked input (path ∷ []) out) ≡ masked input (path ∷ paths) out
masked-masked input path paths out = λ i. record {
  instance_id =
      merge (is_either path "instance_id" "instanceId")
        (names (λ p. is_either p "instance_id" "instanceId") paths) input.instance_id
        out.instance_id i;
  name = merge (str_eq path "name") (names (λ p. str_eq p "name") paths) input.name out.name i;
  user_id =
      merge (is_either path "user_id" "userId") (names (λ p. is_either p "user_id" "userId") paths)
        input.user_id out.user_id i;
  type = merge (str_eq path "type") (names (λ p. str_eq p "type") paths) input.type out.type i;
  created_at =
      merge (is_either path "created_at" "createdAt")
        (names (λ p. is_either p "created_at" "createdAt") paths) input.created_at out.created_at i;
  updated_at =
      merge (is_either path "updated_at" "updatedAt")
        (names (λ p. is_either p "updated_at" "updatedAt") paths) input.updated_at out.updated_at i;
}

abbrev pub unknown_path : String → Error
unknown_path path = kratos 400 "INVALID_FIELD_MASK" (append "unknown field mask path: " path)

copy_path-unknown :
    (input : ResourceItem) (path : String) (out : ResourceItem)
    → is_known path ≡ false
    → copy_path input path out ≡ err (unknown_path path)
unfolding copy_path
copy_path-unknown input path out unknown = ground arith

copy_paths-masked :
    (input : ResourceItem) (paths : List String) (out : ResourceItem)
    → all_known paths ≡ true
    → copy_paths input paths out ≡ ok (masked input paths out)
unfolding copy_paths
copy_paths-masked input [] out known = refl
copy_paths-masked input (path ∷ paths) out known =
    ap (λ r. then_with r (copy_paths input paths)) (copy_path-masked input path out (ground arith))
    ∙ copy_paths-masked input paths (masked input (path ∷ []) out) (ground arith)
    ∙ ap ok (masked-masked input path paths out)

copy_paths-unknown :
    (input : ResourceItem) (paths : List String) (out : ResourceItem)
    → all_known paths ≡ false
    → (path : String) × (is_known path ≡ false)
      × (copy_paths input paths out ≡ err (unknown_path path))
unfolding copy_paths
copy_paths-unknown input [] out unknown = cc
copy_paths-unknown input (path ∷ paths) out unknown = elim (Bool-cases (is_known path)) [
  | inl known ↦
      let (bad, is_bad, fails) =
        copy_paths-unknown input paths (masked input (path ∷ []) out) (ground arith) in
      (
        bad,
        is_bad,
        ap (λ r. then_with r (copy_paths input paths)) (copy_path-masked input path out known)
            ∙ fails,
      )
  | inr bad ↦ (
    path,
    bad,
    ap (λ r. then_with r (copy_paths input paths)) (copy_path-unknown input path out bad),
  )
]

-- Without a mask, or with an empty one, the resource stays whole. A mask of known paths, in any order
-- and with repetitions, gives the resource with exactly the named fields, in either spelling, and the
-- others empty. A mask with an unknown path is an error that names an unknown path.
pub apply_resource_field_mask-masked :
    (input : ResourceItem) (path : String) (paths : List String)
    → (apply_resource_field_mask (some input) none ≡ ok input)
      × (apply_resource_field_mask (some input) (some []) ≡ ok input)
      × (((all_known (path ∷ paths) ≡ true)
            × (apply_resource_field_mask (some input) (some (path ∷ paths))
                ≡ ok (masked input (path ∷ paths) empty_item)))
          ⊎ ((all_known (path ∷ paths) ≡ false)
              × ((bad : String) × (is_known bad ≡ false)
                  × (apply_resource_field_mask (some input) (some (path ∷ paths))
                      ≡ err (unknown_path bad)))))
unfolding apply_resource_field_mask
apply_resource_field_mask-masked input path paths = (
  refl,
  refl,
  elim (Bool-cases (all_known (path ∷ paths))) [
    | inl known ↦ inl (known, copy_paths-masked input (path ∷ paths) empty_item known)
    | inr unknown ↦ inr (unknown, copy_paths-unknown input (path ∷ paths) empty_item unknown)
  ],
)
