-- ===== src/Data/Kube/Deployments/Pods.antt =====
-- The pods of a deployment: what selects them, and what an update makes of them.
use run_all_resource.Prelude.{
  ℕ, String, ℤ, ◌≡◌, ◌≢◌, ◌↔◌, sym, Bool, true, false, ◌&&◌, Option, none, some, [], ◌∷◌, arith,
  str_eq, eq_iff, eq_refl,
}
use run_all_resource.Go.Decimal.{format_int}
use run_all_resource.Go.Decimal.ReadBack.{format_int-injective}
use run_all_resource.Biz.Types.{InstanceSpec}
use run_all_resource.Data.Names.{get_pod_selector}
use run_all_resource.Data.Kube.Objects.{Labels}
use run_all_resource.Data.Kube.Labels.{lookup}
use run_all_resource.Data.Kube.Services.{service_of}
use run_all_resource.Data.Kube.Deployments.{
  instance_labels, deployment_of, update_container, update_deployment_of,
}

abbrev holds : Option String → String → Bool
holds none value = false
holds (some v) value = str_eq v value

-- a selector takes the pods that have each of its labels
abbrev pub selects : Labels → Labels → Bool
selects [] labels = true
selects ((k, v) ∷ selector) labels = holds (lookup labels k) v && selects selector labels

-- A deployment selects its own pods, and the service of a port of an instance selects the pods of a
-- deployment exactly if it is the deployment of that instance.
pub service_selects_pods :
    (namespace : String) (id : ℤ) (port : ℕ) (protocol : String) (spec : InstanceSpec)
    → (selects (deployment_of spec).match_labels (deployment_of spec).pod_labels ≡ true)
      × ((selects
              (service_of namespace (format_int id) port protocol).selector
              (deployment_of spec).pod_labels
            ≡ true)
          ↔ (id ≡ spec.instance_id))
unfolding deployment_of instance_labels service_of get_pod_selector lookup
service_selects_pods namespace id port protocol spec = (
  ground (arith, eq_refl (format_int spec.instance_id), eq_refl spec.user_id),
  (
    (λ h. sym (
        format_int-injective spec.instance_id id
          ((eq_iff (format_int spec.instance_id) (format_int id)).0 (ground arith)))),
    (λ same. rw same (ground (arith, eq_refl (format_int spec.instance_id)))),
  ),
)

-- Updating the deployment that CreateInstance made for an instance, with an image, gives the
-- deployment that CreateInstance would make for the new specification.
pub update_deployment_of-deployment_of :
    (old spec : InstanceSpec)
    → spec.instance_id ≡ old.instance_id
    → spec.user_id ≡ old.user_id
    → spec.image ≢ ""
    → update_deployment_of spec (deployment_of old) ≡ deployment_of spec
unfolding update_deployment_of deployment_of update_container instance_labels
update_deployment_of-deployment_of old spec same_id same_user image =
    ground (arith, eq_iff spec.image "")
