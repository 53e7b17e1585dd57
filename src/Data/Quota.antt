-- ===== src/Data/Quota.antt =====
-- The resource quantities of a container in CreateInstance and UpdateInstance of
-- internal/data/k8sInstance.go. The products are computed in int64.
pub mod Bounds
use run_all_resource.Prelude.{
  ℕ, ◌+◌, ◌-◌, ◌*◌, ◌%◌, ◌^◌, String, ℤ, pos, negsuc, Bool, true, false, Option, none, some, List,
  ltb, ◌==◌, str_eq, if◌then◌else◌,
}

-- a number as the two's complement int64 that has its low 64 bits
unfoldable pub to_int64 : ℕ → ℤ
to_int64 n = let low = n % 2 ^ 64 in if ltb low (2 ^ 63) then pos low else negsuc (2 ^ 64 - low - 1)

-- `q <= 0`
abbrev pub not_positive : ℤ → Bool
not_positive (pos n) = n == 0
not_positive (negsuc n) = true

unfoldable pub or_fallback : ℤ → ℕ → ℤ
or_fallback q fallback = if not_positive q then pos fallback else q

pub record GpuInfo : Type 0 where
  pub nums : ℕ
  pub name : String

abbrev card : String → Option GpuInfo
card name = some (record { nums = 1; name = name })

-- `gpuTypeMap[gpu]`
unfoldable pub gpu_type_map : ℕ → Option GpuInfo
gpu_type_map gpu =
    if gpu == 0
    then some (record { nums = 0; name = "" })
    else if gpu == 1
    then card "nvidia-tesla-v100"
    else if gpu == 2
    then card "nvidia-tesla-a100"
    else if gpu == 3
    then card "nvidia-tesla-h100"
    else if gpu == 4
    then card "nvidia-tesla-t4"
    else if gpu == 5
    then card "nvidia-geforce-rtx3090"
    else if gpu == 6
    then card "nvidia-geforce-rtx4060m"
    else none

-- cpu in thousandths, memory in bytes, and the number of GPUs if the list has an entry for them
pub record ResourceList : Type 0 where
  pub cpu : ℤ
  pub memory : ℤ
  pub gpu : Option ℤ

abbrev pub gpu_entry : ℕ → Option ℤ
gpu_entry gpu =
    if gpu == 0
    then none
    else elim (gpu_type_map gpu) [ none ↦ none | some g ↦ some (to_int64 g.nums) ]

unfoldable pub resource_list : ℕ → ℕ → ℕ → ResourceList
unfolding or_fallback
resource_list cpu memory gpu = record {
  cpu = or_fallback (to_int64 (cpu * 1000)) 1000;
  memory = or_fallback (to_int64 (memory * 1024 * 1024)) (512 * 1024 * 1024);
  gpu = gpu_entry gpu;
}

-- the value of the label "accelerator" in the node selector, if there is one
unfoldable pub node_selector : ℕ → Option String
node_selector gpu = if gpu == 0 then none else elim (gpu_type_map gpu) [
  | none ↦ none
  | some g ↦ if str_eq g.name "" then none else some g.name
]
