-- ===== src/Data/Names.antt =====
-- The names and texts of internal/data/k8sInstance.go.
pub mod Distinct
use run_all_resource.Prelude.{ℕ, String, append, List, [], ◌∷◌, ◌≡◌, refl}
use run_all_resource.Go.Decimal.{itoa}
use run_all_resource.Biz.Instance.{join}

unfoldable pub generate_service_name : String → ℕ → String
generate_service_name id port = append "instance-" (append id (append "-" (itoa port)))

unfoldable pub generate_ingress_name : String → ℕ → String
generate_ingress_name id port = append "ingress-" (append id (append "-" (itoa port)))

unfoldable pub generate_access_url : String → String → String → ℕ → String
generate_access_url domain namespace id port =
    join ("http://" ∷ domain ∷ "/" ∷ namespace ∷ "/" ∷ id ∷ "/" ∷ itoa port ∷ [])

-- the path of the rule in CreateIngress
unfoldable pub ingress_path : String → String → ℕ → String
ingress_path namespace id port = join ("/" ∷ namespace ∷ "/" ∷ id ∷ "/" ∷ itoa port ∷ [])

-- `getPodSelector`: the labels that select the pods of an instance
unfoldable pub get_pod_selector : String → List (String × String)
get_pod_selector id = ("instance-id", id) ∷ ("app", "instance") ∷ []

generate_access_url_test :
    generate_access_url "demo.localtest.me" "u1" "42" 8080 ≡ "http://demo.localtest.me/u1/42/8080"
unfolding generate_access_url join itoa
generate_access_url_test = refl
