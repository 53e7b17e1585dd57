-- ===== src/Data/Kube/Labels.antt =====
-- Maps with texts as keys, as lists of their entries: reading, setting and deleting.
use run_all_resource.Prelude.{
  String, ◌≡◌, Option, none, some, [], ◌∷◌, arith, str_eq, eq_iff, if◌then◌else◌,
}
use run_all_resource.Data.Kube.Objects.{Labels}

-- `m[key]`, with whether it is there
unfoldable pub lookup : Labels → String → Option String
lookup [] key = none
lookup ((k, v) ∷ m) key = if str_eq k key then some v else lookup m key

-- `delete(m, key)`
unfoldable pub remove : Labels → String → Labels
remove [] key = []
remove ((k, v) ∷ m) key = let rest = remove m key in if str_eq k key then rest else (k, v) ∷ rest

-- `m[key] = value`
unfoldable pub insert : Labels → String → String → Labels
unfolding remove
insert m key value = (key, value) ∷ remove m key

pub lookup-remove :
    (m : Labels) (key other : String)
    → lookup (remove m key) other ≡ (if str_eq key other then none else lookup m other)
unfolding lookup remove
lookup-remove [] key other = ground arith
lookup-remove ((k, v) ∷ m) key other =
    ground (arith, lookup-remove m key other, eq_iff k key, eq_iff k other, eq_iff key other)

pub lookup-insert :
    (m : Labels) (key value other : String)
    → lookup (insert m key value) other ≡ (if str_eq key other then some value else lookup m other)
unfolding lookup insert
lookup-insert m key value other = ground (arith, lookup-remove m key other)
