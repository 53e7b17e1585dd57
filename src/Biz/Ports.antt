-- ===== src/Biz/Ports.antt =====
-- SetInstancePort, openPort and closePort of internal/biz/resource.go.
pub mod Ledger
pub mod Claims
pub mod Balance
pub mod Close
pub mod Again
use run_all_resource.Prelude.{
  ℕ, String, append, ℤ, Bool, true, false, ◌||◌, Option, none, some, List, [], ◌∷◌, str_eq,
  if◌then◌else◌,
}
use run_all_resource.Go.{Error, plain, Result, ok, err, M, pure, fail, attempt, ignore, ◌>>=◌, ◌>>◌}
use run_all_resource.Go.Decimal.{itoa, format_int}
use run_all_resource.Biz.Types.{NetworkBinding}
use run_all_resource.Biz.Repos.{ResourceUsecase}
use run_all_resource.Biz.Instance.{join, require_resource, write_audit}

-- `existing != nil && existing.Enabled`, with the stored URL
unfoldable pub opened_url : Option NetworkBinding → Option String
opened_url none = none
opened_url (some b) = if b.enabled then some b.access_url else none

-- What the switch of openPort assigns.
pub record Exposure : Type 0 where
  pub service_name : String
  pub external_port : Option ℕ
  pub ingress_name : Option String
  pub access_url : String

abbrev binding_of : ℤ → ℕ → String → Exposure → NetworkBinding
binding_of id port protocol e = record {
  instance_id = id;
  port = port;
  service_name = e.service_name;
  service_port = port;
  external_port = e.external_port;
  ingress_name = e.ingress_name;
  protocol = protocol;
  access_url = e.access_url;
  enabled = true;
  created_at = 0;
  updated_at = 0;
}

-- the placeholder where the address of the load balancer is not known
lb_ip_or_placeholder : Result String → String
lb_ip_or_placeholder (ok ip) = ip
lb_ip_or_placeholder (err e) = "<ingress-lb-ip>"

opened_json : ℕ → String → String → String
opened_json port protocol url = join (
    "{\"port\":"
    ∷ itoa port
    ∷ ",\"protocol\":\""
    ∷ protocol
    ∷ "\",\"access_url\":\""
    ∷ url
    ∷ "\"}"
    ∷ [])

module _ {W : Type 0} (uc : ResourceUsecase W) where
  expose_tcp_udp : String → String → ℕ → String → M W Exposure
  expose_tcp_udp id_str namespace port protocol = do
    (service, external) ← uc.k8s_repo.create_service_for_tcp_udp namespace id_str port protocol
    ip ← attempt uc.k8s_repo.get_ingress_nginx_lb_ip
    pure (record {
      service_name = service;
      external_port = some external;
      ingress_name = none;
      access_url = join (lb_ip_or_placeholder ip ∷ ":" ∷ itoa external ∷ []);
    })

  -- A failed CreateIngress takes the service back.
  after_ingress : String → String → Result (String × String) → M W Exposure
  after_ingress namespace service (err e) = do
    ignore (uc.k8s_repo.delete_service namespace service)
    fail e
  after_ingress namespace service (ok (ingress, url)) = pure (record {
    service_name = service;
    external_port = none;
    ingress_name = some ingress;
    access_url = url;
  })

  expose_http : String → String → ℕ → String → M W Exposure
  expose_http id_str namespace port domain = do
    service ← uc.k8s_repo.create_service_for_http namespace id_str port
    made ← attempt (uc.k8s_repo.create_ingress namespace id_str port service domain)
    after_ingress namespace service made

  expose : String → String → ℕ → String → String → M W Exposure
  unfolding expose_tcp_udp expose_http after_ingress lb_ip_or_placeholder
  expose id_str namespace port protocol domain =
      if str_eq protocol "TCP" || str_eq protocol "UDP"
      then expose_tcp_udp id_str namespace port protocol
      else if str_eq protocol "HTTP"
      then expose_http id_str namespace port domain
      else fail (plain "invalid protocol, must be TCP/UDP/HTTP")

  -- `if binding.IngressName != nil { _ = DeleteIngress(…) }`
  delete_ingress_of : String → Option String → M W (Unit {0})
  delete_ingress_of namespace none = pure tt
  delete_ingress_of namespace (some name) = ignore (uc.k8s_repo.delete_ingress namespace name)

  delete_entry_of : String → Option ℕ → M W (Unit {0})
  delete_entry_of protocol none = pure tt
  delete_entry_of protocol (some external) =
      ignore (uc.k8s_repo.delete_tcp_udp_config_map_entry protocol external)

  -- the roll back of openPort and the clean up of closePort: each error is dropped
  pub delete_exposure : String → String → Option String → String → Option ℕ → M W (Unit {0})
  unfolding delete_ingress_of delete_entry_of
  delete_exposure namespace service ingress_name protocol external_port = do
    ignore (uc.k8s_repo.delete_service namespace service)
    delete_ingress_of namespace ingress_name
    delete_entry_of protocol external_port

  after_persist : String → NetworkBinding → Result (Unit {0}) → M W String
  after_persist namespace b (err e) = do
    delete_exposure namespace b.service_name b.ingress_name b.protocol b.external_port
    fail e
  after_persist namespace b (ok _) = do
    ignore (
        write_audit uc b.instance_id "PORT_OPENED"
          (join ("Port " ∷ itoa b.port ∷ " opened with protocol " ∷ b.protocol ∷ []))
          (opened_json b.port b.protocol b.access_url))
    pure b.access_url

  -- the record is written, and the outcome of that is acted on
  store_exposure : ℤ → String → ℕ → String → Exposure → M W String
  store_exposure id namespace port protocol exposure = do
    let b = binding_of id port protocol exposure
    stored ← attempt (uc.network_repo.create_network_binding b)
    after_persist namespace b stored

  open_new : ℤ → String → String → ℕ → String → String → M W String
  open_new id id_str namespace port protocol domain = do
    exposure ← expose id_str namespace port protocol domain
    store_exposure id namespace port protocol exposure

  -- idempotent: the URL of a port that is open already is returned
  open_or_reuse : ℤ → String → String → ℕ → String → String → Option String → M W String
  open_or_reuse id id_str namespace port protocol domain (some url) = pure url
  open_or_reuse id id_str namespace port protocol domain none =
      open_new id id_str namespace port protocol domain

  unfoldable pub open_port : ℤ → String → String → ℕ → String → String → M W String
  unfolding open_or_reuse open_new store_exposure after_persist expose delete_exposure opened_json
  open_port id id_str namespace port protocol domain = do
    existing ← uc.network_repo.get_network_binding id port
    open_or_reuse id id_str namespace port protocol domain (opened_url existing)

  pub close_found : ℤ → String → ℕ → Option NetworkBinding → M W (Unit {0})
  close_found id namespace port none = pure tt
  close_found id namespace port (some b) = do
    delete_exposure namespace b.service_name b.ingress_name b.protocol b.external_port
    uc.network_repo.delete_network_binding id port
    ignore (
        write_audit uc id "PORT_CLOSED" (join ("Port " ∷ itoa port ∷ " closed" ∷ []))
          (join ("{\"port\":" ∷ itoa port ∷ "}" ∷ [])))

  unfoldable pub close_port : ℤ → String → ℕ → M W (Unit {0})
  unfolding close_found delete_exposure
  close_port id namespace port = do
    binding ← uc.network_repo.get_network_binding id port
    close_found id namespace port binding

  unfoldable pub set_instance_port : ℤ → ℕ → String → Bool → String → M W String
  set_instance_port id port protocol true domain = do
    resource ← require_resource uc id
    open_port id (format_int id) resource.user_id port protocol domain
  set_instance_port id port protocol false domain = do
    resource ← require_resource uc id
    close_port id resource.user_id port
    pure ""
