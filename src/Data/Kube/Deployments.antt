-- ===== src/Data/Kube/Deployments.antt =====
-- The deployment of an instance: ensureNamespace, CreateInstance, DeleteInstance, scaleDeployment,
-- StopInstance, StartInstance and UpdateInstance of internal/data/k8sInstance.go.
pub mod Pods
pub mod Outcomes
use run_all_resource.Prelude.{
  ℕ, String, append, Bool, true, false, Option, none, some, List, [], ◌∷◌, str_eq, if◌then◌else◌,
}
use run_all_resource.Go.{
  Error, plain, wrap, is_not_found, is_already_exists, Result, ok, err, M, pure, fail, attempt,
  ignore, on_error, ◌>>=◌, ◌>>◌,
}
use run_all_resource.Go.Decimal.{format_int}
use run_all_resource.Biz.Types.{InstanceSpec}
use run_all_resource.Biz.Instance.{join}
use run_all_resource.Data.Quota.{resource_list, node_selector}
use run_all_resource.Data.Kube.Objects.{Labels, Namespace, Service, Container, Deployment, Scale}
use run_all_resource.Data.Kube.Client.{K8sClient}

abbrev pub user_namespace : String → Namespace
user_namespace name = record {
  name = name;
  labels = ("user-namespace", "true") ∷ ("managed-by", "resource-service") ∷ [];
}

unfoldable pub instance_labels : InstanceSpec → Labels
instance_labels spec =
    ("instance-id", format_int spec.instance_id)
    ∷ ("app", "instance")
    ∷ ("user-id", spec.user_id)
    ∷ []

abbrev pub selector_labels : Option String → Labels
selector_labels none = []
selector_labels (some name) = ("accelerator", name) ∷ []

unfoldable pub deployment_of : InstanceSpec → Deployment
deployment_of spec =
    let name = format_int spec.instance_id in
    let labels = instance_labels spec in
    let resources = resource_list spec.cpu spec.memory spec.gpu in
    record {
      name = name;
      namespace = spec.user_id;
      labels = labels;
      replicas = 1;
      match_labels = labels;
      pod_labels = labels;
      containers =
          record {
            name = name;
            image = spec.image;
            command = "bash" ∷ "-lc" ∷ "sleep infinity" ∷ [];
            requests = resources;
            limits = resources;
          }
          ∷ [];
      node_selector = selector_labels (node_selector spec.gpu);
      rest = 0;
    }

-- what UpdateInstance changes of the first container
unfoldable pub update_container : InstanceSpec → Container → Container
update_container spec c =
    let resources = resource_list spec.cpu spec.memory spec.gpu in
    record c {
      image = if str_eq spec.image "" then c.image else spec.image;
      requests = resources;
      limits = resources;
    }

update_containers : InstanceSpec → Deployment → List Container → Deployment
update_containers spec d [] = d
update_containers spec d (c ∷ cs) = record d {
  containers = update_container spec c ∷ cs;
  node_selector = selector_labels (node_selector spec.gpu);
}

unfoldable pub update_deployment_of : InstanceSpec → Deployment → Deployment
unfolding update_containers
update_deployment_of spec d = update_containers spec d d.containers

module _ {W : Type 0} (client : K8sClient W) where
  -- `if err != nil && !k8serrors.IsAlreadyExists(err) { return err }`
  after_create_namespace : Result (Unit {0}) → M W (Unit {0})
  after_create_namespace (ok _) = pure tt
  after_create_namespace (err e) = if is_already_exists e then pure tt else fail e

  after_get_namespace : String → Result Namespace → M W (Unit {0})
  after_get_namespace name (ok _) = pure tt
  after_get_namespace name (err e) =
      let create =
        attempt (client.create_namespace (user_namespace name)) >>= after_create_namespace in
      if is_not_found e then create else fail e

  unfoldable pub ensure_namespace : String → M W (Unit {0})
  unfolding after_get_namespace after_create_namespace
  ensure_namespace name = attempt (client.get_namespace name) >>= after_get_namespace name

  unfoldable pub create_instance : InstanceSpec → M W (Unit {0})
  create_instance spec = do
    on_error (wrap (append "failed to ensure namespace " spec.user_id))
        (ensure_namespace spec.user_id)
    on_error (wrap "k8s create failed") (client.create_deployment spec.user_id (deployment_of spec))

  -- `err != nil && !k8serrors.IsNotFound(err)`
  unless_missing : String → Result (Unit {0}) → M W (Unit {0})
  unless_missing message (ok _) = pure tt
  unless_missing message (err e) = if is_not_found e then pure tt else fail (wrap message e)

  -- The errors of these deletions are dropped.
  delete_each : String → List Service → M W (Unit {0})
  delete_each namespace [] = pure tt
  delete_each namespace (s ∷ services) = do
    ignore (client.delete_service namespace s.name)
    delete_each namespace services

  after_list : String → Result (List Service) → M W (Unit {0})
  after_list namespace (err e) = pure tt
  after_list namespace (ok services) = delete_each namespace services

  -- the services and ingresses with the label of the instance
  delete_attached : String → String → M W (Unit {0})
  delete_attached namespace id = do
    services ← attempt (client.list_services namespace (append "instance-id=" id))
    after_list namespace services
    ignore (client.delete_ingresses namespace (append "instance-id=" id))

  unfoldable pub delete_instance : String → String → M W (Unit {0})
  unfolding unless_missing delete_attached after_list delete_each
  delete_instance namespace id = do
    deleted ← attempt (client.delete_deployment namespace id)
    unless_missing "failed to delete deployment" deleted
    delete_attached namespace id

  unfoldable pub scale_deployment : String → String → ℕ → M W (Unit {0})
  scale_deployment namespace id replicas = do
    scale ←
        on_error (wrap (append "failed to get scale for deployment " id))
          (client.get_scale namespace id)
    on_error (wrap (append "failed to update scale for deployment " id))
        (client.update_scale namespace id (record scale { replicas = replicas }))

  unfoldable pub stop_instance : String → String → M W (Unit {0})
  stop_instance namespace id = scale_deployment namespace id 0

  unfoldable pub start_instance : String → String → M W (Unit {0})
  start_instance namespace id = scale_deployment namespace id 1

  unfoldable pub update_instance : InstanceSpec → M W (Unit {0})
  update_instance spec = do
    let id = format_int spec.instance_id
    d ←
        on_error (wrap (append "failed to get deployment " id))
          (client.get_deployment spec.user_id id)
    on_error (wrap (append "failed to update deployment " id))
        (client.update_deployment spec.user_id (update_deployment_of spec d))

module _ {W : Type 0} where
  -- the test of CreateInstance for a client that is nil
  unfoldable pub create_instance_with : Option (K8sClient W) → InstanceSpec → M W (Unit {0})
  create_instance_with none spec = fail (plain "k8s client is not initialized")
  create_instance_with (some client) spec = create_instance client spec
