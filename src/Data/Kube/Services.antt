-- ===== src/Data/Kube/Services.antt =====
-- Services and ingresses of ports: CreateServiceForHTTP, DeleteService, CreateIngress, DeleteIngress and
-- GetIngressNginxLBIP of internal/data/k8sInstance.go.
pub mod Outcomes
use run_all_resource.Prelude.{
  ℕ, String, append, Bool, true, false, Option, none, some, List, [], ◌∷◌, str_eq, if◌then◌else◌,
}
use run_all_resource.Go.{
  plain, wrap, is_not_found, Result, ok, err, M, pure, fail, attempt, on_error, ◌>>=◌, ◌>>◌,
}
use run_all_resource.Go.Decimal.{itoa}
use run_all_resource.Data.Names.{
  generate_service_name, generate_ingress_name, generate_access_url, get_pod_selector, ingress_path,
}
use run_all_resource.Data.PortPool.{K8sSettings}
use run_all_resource.Data.Kube.Objects.{
  Labels, ServicePort, Service, LoadBalancerIngress, Ingress, to_int32,
}
use run_all_resource.Data.Kube.Client.{K8sClient}

abbrev pub managed_labels : String → Labels
managed_labels id = ("instance-id", id) ∷ ("managed-by", "resource-service") ∷ []

-- the service of one port of an instance
unfoldable pub service_of : String → String → ℕ → String → Service
service_of namespace id port protocol = record {
  name = generate_service_name id port;
  namespace = namespace;
  labels = managed_labels id;
  type = "ClusterIP";
  selector = get_pod_selector id;
  ports =
      record {
        name = append "port-" (itoa port);
        protocol = protocol;
        port = to_int32 port;
        target_port = to_int32 port;
      }
      ∷ [];
  load_balancer = [];
  rest = 0;
}

unfoldable pub ingress_of : String → String → ℕ → String → String → Ingress
ingress_of namespace id port service domain = record {
  name = generate_ingress_name id port;
  namespace = namespace;
  labels = managed_labels id;
  annotations = ("nginx.ingress.kubernetes.io/rewrite-target", "/") ∷ [];
  class_name = "nginx";
  host = domain;
  path = ingress_path namespace id port;
  path_type = "Prefix";
  service_name = service;
  service_port = to_int32 port;
}

-- the address of the load balancer: its IP, or else its host name
unfoldable pub lb_address : List LoadBalancerIngress → Option String
lb_address [] = none
lb_address (i ∷ rest) =
    if str_eq i.ip "" then (if str_eq i.hostname "" then none else some i.hostname) else some i.ip

module _ {W : Type 0} where
  -- a deletion of something that is not there succeeds
  unless_missing : String → Result (Unit {0}) → M W (Unit {0})
  unless_missing message (ok _) = pure tt
  unless_missing message (err e) = if is_not_found e then pure tt else fail (wrap message e)

  address_or_error : Option String → M W String
  address_or_error none = fail (plain "ingress-nginx LoadBalancer has no external IP")
  address_or_error (some a) = pure a

module _ {W : Type 0} (client : K8sClient W) where
  unfoldable pub create_service_for_http : String → String → ℕ → M W String
  create_service_for_http namespace id port = do
    on_error (wrap "failed to create service")
        (client.create_service namespace (service_of namespace id port "TCP"))
    pure (generate_service_name id port)

  unfoldable pub delete_service : String → String → M W (Unit {0})
  unfolding unless_missing
  delete_service namespace name =
      attempt (client.delete_service namespace name) >>= unless_missing "failed to delete service"

  unfoldable pub create_ingress : String → String → ℕ → String → String → M W (String × String)
  create_ingress namespace id port service domain = do
    on_error (wrap "failed to create ingress")
        (client.create_ingress namespace (ingress_of namespace id port service domain))
    pure (generate_ingress_name id port, generate_access_url domain namespace id port)

  unfoldable pub delete_ingress : String → String → M W (Unit {0})
  unfolding unless_missing
  delete_ingress namespace name =
      attempt (client.delete_ingress namespace name) >>= unless_missing "failed to delete ingress"

  unfoldable pub get_ingress_nginx_lb_ip : K8sSettings → M W String
  unfolding address_or_error
  get_ingress_nginx_lb_ip r = do
    svc ←
        on_error (wrap "failed to get ingress-nginx service")
          (client.get_service r.ingress_nginx_namespace r.ingress_nginx_lb_service)
    address_or_error (lb_address svc.load_balancer)
