-- ===== src/Data/Kube/Services/Outcomes.antt =====
-- How the deletions of services and ingresses end.
use run_all_resource.Prelude.{String, ◌≡◌, ◌⊎◌, true, false, arith}
use run_all_resource.Go.{Error, wrap, is_not_found, Result, ok, err}
use run_all_resource.Data.Kube.Client.{K8sClient}
use run_all_resource.Data.Kube.Services.{delete_service, delete_ingress}

-- `answer` is what the cluster says to a deletion: done or not found is a success, and any other error
-- is passed on with a message.
abbrev pub DeletesOnce : String → Result (Unit {0}) → Result (Unit {0}) → Type 0
DeletesOnce message answer r =
    ((r ≡ ok tt) × ((answer ≡ ok tt) ⊎ ((e : Error) × (answer ≡ err e) × (is_not_found e ≡ true))))
    ⊎ ((e : Error) × (answer ≡ err e) × (is_not_found e ≡ false) × (r ≡ err (wrap message e)))

module _ {W : Type 0} (client : K8sClient W) where
  -- Deleting a service or an ingress makes one call and succeeds exactly if the cluster deletes it or
  -- does not find it, so it may be repeated; the state is what the call leaves.
  pub deletions_repeatable :
      (namespace name : String) (w : W)
      → DeletesOnce "failed to delete service"
          (client.delete_service namespace name w).0
          (delete_service client namespace name w).0
        × DeletesOnce "failed to delete ingress"
            (client.delete_ingress namespace name w).0
            (delete_ingress client namespace name w).0
        × ((delete_service client namespace name w).1 ≡ (client.delete_service namespace name w).1)
        × ((delete_ingress client namespace name w).1 ≡ (client.delete_ingress namespace name w).1)
  unfolding delete_service delete_ingress
  deletions_repeatable namespace name w = ground arith
