-- ===== src/Data/Kube/Repo.antt =====
-- k8sRepo fills the interface K8sRepo of the use case.
use run_all_resource.Go.{◌>>=◌}
use run_all_resource.Biz.Repos.{K8sRepo}
use run_all_resource.Data.PortPool.{K8sSettings}
use run_all_resource.Data.Kube.Client.{K8sClient, Repo, call, settings}
use run_all_resource.Data.Kube.Deployments
use run_all_resource.Data.Kube.Services
use run_all_resource.Data.Kube.Nginx

-- The domain is read once, from the settings that the repository was made with; it never changes.
unfoldable pub k8s_repo : {W : Type 0} → K8sClient W → K8sSettings → K8sRepo (Repo W)
k8s_repo client made = record {
  create_instance = λ spec. call (Deployments.create_instance client spec);
  delete_instance = λ ns id. call (Deployments.delete_instance client ns id);
  stop_instance = λ ns id. call (Deployments.stop_instance client ns id);
  start_instance = λ ns id. call (Deployments.start_instance client ns id);
  update_instance = λ spec. call (Deployments.update_instance client spec);
  create_service_for_tcp_udp =
      λ ns id port protocol. Nginx.create_service_for_tcp_udp client ns id port protocol;
  create_service_for_http = λ ns id port. call (Services.create_service_for_http client ns id port);
  delete_service = λ ns name. call (Services.delete_service client ns name);
  delete_tcp_udp_config_map_entry = λ protocol external.
      settings >>= λ r. call (Nginx.delete_tcp_udp_config_map_entry client r protocol external);
  create_ingress =
      λ ns id port service domain. call (Services.create_ingress client ns id port service domain);
  delete_ingress = λ ns name. call (Services.delete_ingress client ns name);
  get_ingress_domain = made.ingress_domain;
  get_ingress_nginx_lb_ip = settings >>= λ r. call (Services.get_ingress_nginx_lb_ip client r);
}
