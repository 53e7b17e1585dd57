-- ===== src/Service/Listing/Replies.antt =====
-- The reply of ListResources against what the use case returns.
use run_all_resource.Service.Listing.Items.{ItemsFor, items_of-ItemsFor}
use mathlib.Core.Path.{subst}
use run_all_resource.Prelude.{
  String, ℤ, int_eq, int_eq_iff, str_eq, eq_iff, Bool-cases, inl, inr, true, false, ◌≡◌, ◌⊎◌, sym,
  ap, ◌∙◌, ◌≢◌, map, Option, none, some, List, [], ◌∷◌, arith, if◌then◌else◌,
}
use run_all_resource.Go.{Result, ok, then_with, then_with-ok, bind-ok, pure, ◌>>=◌}
use run_all_resource.Go.Decimal.{format_int}
use run_all_resource.Go.Decimal.ReadBack.{format_int-injective}
use run_all_resource.Biz.Types.{Resource, ListResourcesFilter, InstanceSpec}
use run_all_resource.Biz.Repos.{ResourceUsecase}
use run_all_resource.Biz.Instance.{list_resources, list_resource_specs}
use run_all_resource.Service.FieldMask.{ResourceItem}
use run_all_resource.Service.Listing.{
  ListResourcesReq, ResourceSpec, ListResourcesReply, filter_of, items_of, ids_of, spec_entry,
  spec_entries, list_resources_handler, handle_list, config_of, lift,
}

abbrev pub get_spec : List (ℤ × InstanceSpec) → ℤ → Option InstanceSpec
get_spec [] id = none
get_spec ((i, s) ∷ specs) id = if int_eq i id then some s else get_spec specs id

abbrev pub get_entry :
    {C : Type 0} → List (String × ResourceSpec C) → String → Option (ResourceSpec C)
get_entry [] key = none
get_entry ((k, s) ∷ entries) key = if str_eq k key then some s else get_entry entries key

-- The configuration that a text of JSON holds, none if it is empty.
abbrev pub Configures : {C : Type 0} → (String → Result C) → String → Option C → Type 0
Configures unmarshal json none = json ≡ ""
Configures unmarshal json (some config) = (json ≢ "") × (unmarshal json ≡ ok config)

-- A specification is answered under its identifier with its own quantities, image and configuration, and
-- nothing else is.
abbrev pub Answers :
    {C : Type 0} → (String → Result C) → ℤ → Option InstanceSpec → Option (ResourceSpec C) → Type 0
Answers unmarshal id none none = Unit
Answers unmarshal id none (some r) = ⊥
Answers unmarshal id (some s) none = ⊥
Answers unmarshal id (some s) (some r) =
    (r.instance_id ≡ id)
    × (r.cpu_cores ≡ s.cpu)
    × (r.memory_size ≡ s.memory)
    × (r.gpu ≡ s.gpu)
    × (r.image ≡ s.image)
    × Configures unmarshal s.config_json r.custom_config

same_key : (a b : ℤ) → str_eq (format_int a) (format_int b) ≡ int_eq a b
same_key a b = elim (Bool-cases (int_eq a b)) [
  | inl same ↦
      (eq_iff (format_int a) (format_int b)).1 (ap format_int ((int_eq_iff a b).0 same)) ∙ sym same
  | inr differ ↦ ground (
    arith,
    (λ (h : str_eq (format_int a) (format_int b) ≡ true).
        (int_eq_iff a b).1 (format_int-injective a b ((eq_iff (format_int a) (format_int b)).0 h))),
  )
]

module _ {C : Type 0} (unmarshal : String → Result C) where
  abbrev answered : ℤ → InstanceSpec → Option C → Result (String × ResourceSpec C)
  answered id s config = ok (
    format_int id,
    record {
      instance_id = id;
      cpu_cores = s.cpu;
      memory_size = s.memory;
      gpu = s.gpu;
      image = s.image;
      custom_config = config;
    },
  )

  config_of-Configures :
      (json : String) (config : Option C)
      → config_of unmarshal json ≡ ok config
      → Configures unmarshal json config
  unfolding config_of
  config_of-Configures json config h = elim (Bool-cases (str_eq json "")) [
    | inl empty ↦
        let same : none ≡ config = ground arith in
        subst (Configures unmarshal json) same ((eq_iff json "").0 empty)
    | inr filled ↦
        let some_of = λ (c : C). ok (some c) in
        let (c, p, made) = then_with-ok (unmarshal json) some_of config (ground arith) in
        let same : some c ≡ config = cc in
        subst (Configures unmarshal json) same ((λ e. cc ((eq_iff json "").1 e)), p)
  ]

  -- an entry has the key and the numbers of its specification
  spec_entry-ok :
      (id : ℤ) (s : InstanceSpec) (key : String) (r : ResourceSpec C)
      → spec_entry unmarshal (id, s) ≡ ok (key, r)
      → (key ≡ format_int id) × Answers unmarshal id (some s) (some r)
  unfolding spec_entry
  spec_entry-ok id s key r h =
      let (config, p, made) =
        then_with-ok (config_of unmarshal s.config_json) (answered id s) (key, r) h in
      let same : config ≡ r.custom_config = cc in
      (
        cc,
        (
          cc,
          cc,
          cc,
          cc,
          cc,
          subst (Configures unmarshal s.config_json) same
              (config_of-Configures s.config_json config p),
        ),
      )

  head_or_rest :
      (i : ℤ) (s : InstanceSpec) (r : ResourceSpec C) (specs : List (ℤ × InstanceSpec))
      (more : List (String × ResourceSpec C)) (id : ℤ)
      → Answers unmarshal i (some s) (some r)
      → Answers unmarshal id (get_spec specs id) (get_entry more (format_int id))
      → Answers unmarshal id
          (get_spec ((i, s) ∷ specs) id)
          (get_entry ((format_int i, r) ∷ more) (format_int id))
  head_or_rest i s r specs more id numbers rest =
      rw (same_key i id) (split (Bool-cases (int_eq i id)))
    where
      split :
          (int_eq i id ≡ true) ⊎ (int_eq i id ≡ false)
          → Answers unmarshal id
              (if int_eq i id then some s else get_spec specs id)
              (if int_eq i id then some r else get_entry more (format_int id))
      split (inl same) = rw same (
        numbers.0 ∙ (int_eq_iff i id).0 same,
        numbers.1,
        numbers.2,
        numbers.3,
        numbers.4,
        numbers.5,
      )
      split (inr differ) = rw differ rest

  spec_entries-Answers :
      (specs : List (ℤ × InstanceSpec)) (entries : List (String × ResourceSpec C)) (id : ℤ)
      → spec_entries unmarshal specs ≡ ok entries
      → Answers unmarshal id (get_spec specs id) (get_entry entries (format_int id))
  unfolding spec_entries
  spec_entries-Answers [] [] id h = tt
  spec_entries-Answers [] (x ∷ entries) id h = cc
  spec_entries-Answers ((i, s) ∷ specs) entries id h =
      let add_to = λ (entry : String × ResourceSpec C).
        then_with (spec_entries unmarshal specs) (λ more. ok (entry ∷ more)) in
      let ((key, r), p, h1) = then_with-ok (spec_entry unmarshal (i, s)) add_to entries h in
      let (more, q, h2) =
        then_with-ok (spec_entries unmarshal specs) (λ more. ok ((key, r) ∷ more)) entries h1 in
      let same : (key, r) ∷ more ≡ entries = cc in
      let (is_key, numbers) = spec_entry-ok i s key r p in
      subst (λ l. Answers unmarshal id (get_spec ((i, s) ∷ specs) id) (get_entry l (format_int id)))
        same
        (rw is_key
          (head_or_rest i s r specs more id numbers (spec_entries-Answers specs more id q)))

module _ {W C : Type 0} (uc : ResourceUsecase W) (unmarshal : String → Result C) where
  -- each field of the filter is the field of the request
  abbrev pub asked_for : ListResourcesReq → ListResourcesFilter
  asked_for req = record {
    user_id = req.user_id;
    start = req.start;
    end = req.end;
    type = req.type;
  }

  -- What a reply says of the resources and specifications that the use case returned.
  abbrev pub ReplyFor : ListResourcesReq → W → ListResourcesReply C → ℤ → Type 0
  ReplyFor req w reply id =
      (rs : List Resource) × (specs : List (ℤ × InstanceSpec)) × ((list_resources uc (asked_for req)
          w).0
        ≡ ok rs)
      × ((list_resource_specs uc (map (λ r. r.instance_id) rs)
            (list_resources uc (asked_for req) w).1).0
          ≡ ok specs)
      × ItemsFor req.field_mask rs reply.resources
      × Answers unmarshal id (get_spec specs id) (get_entry reply.specs (format_int id))

  -- A reply has one item for each resource that the use case returns for the filter of the request, in
  -- this order, with all its fields or, under a mask with paths, with exactly the fields that these name,
  -- all of them known. It answers under each identifier the specification that the use case returns for
  -- the identifiers of these resources, with its quantities, its image and the configuration that its
  -- JSON holds, if any, and under no other identifier any.
  pub list_resources_handler-ReplyFor :
      (req : ListResourcesReq) (w : W) (reply : ListResourcesReply C) (id : ℤ)
      → (list_resources_handler uc unmarshal (some req) w).0 ≡ ok reply
      → ReplyFor req w reply id
  unfolding list_resources_handler handle_list filter_of
  list_resources_handler-ReplyFor req w reply id h =
      let after_specs = λ (items : List ResourceItem) (specs : List (ℤ × InstanceSpec)).
        lift uc unmarshal (spec_entries unmarshal specs) >>= λ entries.
        pure {W = W} (record { resources = items; specs = entries }) in
      let after_items = λ (rs : List Resource) (items : List ResourceItem).
        list_resource_specs uc (ids_of rs) >>= after_specs items in
      let after_list =
        λ (rs : List Resource). lift uc unmarshal (items_of req.field_mask rs) >>= after_items rs in
      let (rs, listed, h1) = bind-ok (list_resources uc (filter_of req)) after_list w reply h in
      let w1 = (list_resources uc (filter_of req) w).1 in
      let (items, are_items, h2) =
        bind-ok (lift uc unmarshal (items_of req.field_mask rs)) (after_items rs) w1 reply h1 in
      let (specs, found, h3) =
        bind-ok (list_resource_specs uc (ids_of rs)) (after_specs items) w1 reply h2 in
      let w2 = (list_resource_specs uc (ids_of rs) w1).1 in
      let (entries, are_entries, h4) =
        bind-ok (lift uc unmarshal (spec_entries unmarshal specs))
          (λ es. pure {W = W} (record { resources = items; specs = es })) w2 reply h3 in
      let same : record { resources = items; specs = entries } ≡ reply = cc in
      (
        rs,
        specs,
        listed,
        found,
        subst (λ (r : ListResourcesReply C). ItemsFor req.field_mask rs r.resources) same
            (items_of-ItemsFor req.field_mask rs items are_items),
        subst
            (λ (r : ListResourcesReply C).
              Answers unmarshal id (get_spec specs id) (get_entry r.specs (format_int id)))
            same (spec_entries-Answers unmarshal specs entries id are_entries),
      )
