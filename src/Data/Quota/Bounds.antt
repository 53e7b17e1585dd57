-- ===== src/Data/Quota/Bounds.antt =====
-- What a container asks for, for every specification.
use native.Mathlib.Decide.{dec_lt}
use run_all_resource.Prelude.{
  Bool-cases, Option-cases, inl, ℕ, zero, suc, ◌*◌, ◌^◌, ◌≤◌, ◌<◌, String, pos, ◌≡◌, ◌≢◌, ◌⊎◌, refl,
  sym, ap, ◌∙◌, inr, str_eq, Option, none, some, arith, ◌==◌, if◌then◌else◌,
}
use run_all_resource.Data.Quota.{to_int64, resource_list, gpu_type_map, node_selector}

-- For every uint32 of cores and of megabytes the products fit an int64, so the quantities are the
-- exact ones, or the fallbacks of one core and 512Mi where none was asked for; they are never 0.
pub resource_list_exact :
    (cpu memory gpu : ℕ)
    → cpu < 2 ^ 32
    → memory < 2 ^ 32
    → ((resource_list cpu memory gpu).cpu ≡ pos (if cpu == 0 then 1000 else cpu * 1000))
      × ((resource_list cpu memory gpu).memory
          ≡ pos (if memory == 0 then 512 * 2 ^ 20 else memory * 2 ^ 20))
unfolding resource_list to_int64
resource_list_exact cpu memory gpu small_cpu small_memory = (ground arith, ground arith)

gpu_card :
    (cpu memory a : ℕ)
    → (1 ≤ a) × (a ≤ 6)
    → ((resource_list cpu memory a).gpu ≡ some (pos 1)) × (node_selector a ≢ none)
unfolding resource_list gpu_type_map node_selector to_int64
gpu_card cpu memory zero h = absurd (omega arith)
gpu_card cpu memory (suc zero) h = (refl, (λ e. cc))
gpu_card cpu memory (suc (suc zero)) h = (refl, (λ e. cc))
gpu_card cpu memory (suc (suc (suc zero))) h = (refl, (λ e. cc))
gpu_card cpu memory (suc (suc (suc (suc zero)))) h = (refl, (λ e. cc))
gpu_card cpu memory (suc (suc (suc (suc (suc zero))))) h = (refl, (λ e. cc))
gpu_card cpu memory (suc (suc (suc (suc (suc (suc zero)))))) h = (refl, (λ e. cc))
gpu_card cpu memory (suc (suc (suc (suc (suc (suc (suc a))))))) h = absurd (omega arith)

gpu_none :
    (cpu memory a : ℕ)
    → (a ≡ 0) ⊎ (7 ≤ a)
    → ((resource_list cpu memory a).gpu ≡ none) × (node_selector a ≡ none)
unfolding resource_list gpu_type_map node_selector to_int64
gpu_none cpu memory a h = ground arith

-- the GPU type that a node selector stands for
type_of : Option String → ℕ
type_of none = 0
type_of (some name) =
    if str_eq name "nvidia-tesla-v100"
    then 1
    else if str_eq name "nvidia-tesla-a100"
    then 2
    else if str_eq name "nvidia-tesla-h100"
    then 3
    else if str_eq name "nvidia-tesla-t4"
    then 4
    else if str_eq name "nvidia-geforce-rtx3090"
    then 5
    else 6

type_of-node_selector : (a : ℕ) → node_selector a ≢ none → type_of (node_selector a) ≡ a
unfolding type_of gpu_type_map node_selector
type_of-node_selector zero h = absurd (h refl)
type_of-node_selector (suc zero) h = refl
type_of-node_selector (suc (suc zero)) h = refl
type_of-node_selector (suc (suc (suc zero))) h = refl
type_of-node_selector (suc (suc (suc (suc zero)))) h = refl
type_of-node_selector (suc (suc (suc (suc (suc zero))))) h = refl
type_of-node_selector (suc (suc (suc (suc (suc (suc zero)))))) h = refl
type_of-node_selector (suc (suc (suc (suc (suc (suc (suc a))))))) h =
    absurd (h (gpu_none 0 0 (suc (suc (suc (suc (suc (suc (suc a))))))) (inr (omega arith))).1)

-- A GPU type asks for one device exactly if it is one of the types 1 to 6, and for none otherwise; the
-- pod is pinned to nodes with an accelerator in the same cases, and two types that pin to one
-- accelerator are one type.
pub gpu_types :
    (cpu memory a b : ℕ)
    → (((1 ≤ a)
          × (a ≤ 6)
          × ((resource_list cpu memory a).gpu ≡ some (pos 1))
          × (node_selector a ≢ none))
        ⊎ (((a ≡ 0) ⊎ (7 ≤ a))
            × ((resource_list cpu memory a).gpu ≡ none)
            × (node_selector a ≡ none)))
      × ((a ≡ b) ⊎ ((node_selector a ≡ none) ⊎ (node_selector a ≢ node_selector b)))
gpu_types cpu memory a b = (asked, pinned)
  where
    asked :
        ((1 ≤ a)
          × (a ≤ 6)
          × ((resource_list cpu memory a).gpu ≡ some (pos 1))
          × (node_selector a ≢ none))
        ⊎ (((a ≡ 0) ⊎ (7 ≤ a))
            × ((resource_list cpu memory a).gpu ≡ none)
            × (node_selector a ≡ none))
    asked = elim (dec_lt 0 a) [
      | no low ↦
          let free = gpu_none cpu memory a (inl (omega arith)) in
          inr (inl (omega arith), free.0, free.1)
      | yes low ↦ elim (dec_lt a 7) [
        | yes high ↦
            let (device, pin) = gpu_card cpu memory a (omega arith, omega arith) in
            inl (omega arith, omega arith, device, pin)
        | no high ↦
            let free = gpu_none cpu memory a (inr (omega arith)) in
            inr (inr (omega arith), free.0, free.1)
      ]
    ]

    pinned : (a ≡ b) ⊎ ((node_selector a ≡ none) ⊎ (node_selector a ≢ node_selector b))
    pinned = elim (Option-cases (node_selector a)) [
      | inl free ↦ inr (inl free)
      | inr (name, is_name) ↦ elim (Bool-cases (a == b)) [
        | inl same ↦ inl (ground arith)
        | inr differ ↦ inr (
            inr (λ e.
              let same : a ≡ b =
                sym (type_of-node_selector a (λ k. cc))
                ∙ ap type_of e
                ∙ type_of-node_selector b (λ k. cc) in
              ground arith))
      ]
    ]
