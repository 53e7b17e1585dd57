-- ===== src/Service/PortConfigs.antt =====
-- SetInstancePort of internal/service/resource.go: a request sets several ports, each with a result of
-- its own.
pub mod Results
pub mod Valid
use run_all_resource.Prelude.{
  ℕ, ◌+◌, String, append, ℤ, is_zero, Bool, true, false, ◌||◌, ◌&&◌, not, Option, none, some, List,
  [], ◌∷◌, ◌++◌, length, ltb, ◌==◌, str_eq, if◌then◌else◌,
}
use run_all_resource.Go.{Error, Texts, kratos, error_text, Result, ok, err, M, fail}
use run_all_resource.Go.Decimal.{itoa}
use run_all_resource.Biz.Repos.{ResourceUsecase}
use run_all_resource.Biz.Instance.{join}
use run_all_resource.Biz.Ports.{set_instance_port}

pub record PortConfig : Type 0 where
  pub port : ℕ
  pub protocol : String
  pub ingress_domain : String

pub record SetInstancePortReq : Type 0 where
  pub instance_id : ℤ
  pub open_ports : Bool
  pub port_configs : List PortConfig

pub record PortResult : Type 0 where
  pub port : ℕ
  pub success : Bool
  pub access_url : String
  pub error : String

pub record SetInstancePortResp : Type 0 where
  pub success : Bool
  pub results : List PortResult
  pub message : String

abbrev pub failed : ℕ → String → PortResult
failed port message = record { port = port; success = false; access_url = ""; error = message }

-- the protocol that a config asks for, HTTP if it says none
unfoldable pub protocol_of : PortConfig → String
protocol_of config = if str_eq config.protocol "" then "HTTP" else config.protocol

abbrev pub is_protocol : String → Bool
is_protocol p = str_eq p "TCP" || str_eq p "UDP" || str_eq p "HTTP"

-- the checks before the use case is called; `some` is the error of the first that fails
unfoldable pub config_error : PortConfig → Option String
unfolding protocol_of
config_error config =
    if config.port == 0 || ltb 65535 config.port
    then some "invalid port number, must be 1-65535"
    else if not (is_protocol (protocol_of config))
    then some "invalid protocol, must be TCP, UDP or HTTP"
    else if str_eq (protocol_of config) "HTTP" && str_eq config.ingress_domain ""
    then some "ingress_domain is required for HTTP protocol"
    else none

module _ {W : Type 0} (uc : ResourceUsecase W) (texts : Texts) where
  -- what the use case returned, as the result of the port
  result_of : ℕ → Bool → Result String → PortResult
  result_of port open_ports (err e) = failed port (error_text texts e)
  result_of port open_ports (ok url) = record {
    port = port;
    success = true;
    access_url = if open_ports then url else "";
    error = "";
  }

  -- one round of the loop over the configs
  checked_config : ℤ → Bool → PortConfig → Option String → W → PortResult × W
  checked_config id open_ports config (some message) w = (failed config.port message, w)
  checked_config id open_ports config none w =
      let (r, w') =
        set_instance_port uc id config.port (protocol_of config) open_ports config.ingress_domain
          w in
      (result_of config.port open_ports r, w')

  unfoldable pub handle_config : ℤ → Bool → PortConfig → W → PortResult × W
  unfolding checked_config result_of
  handle_config id open_ports config w = checked_config id open_ports config (config_error config) w

  -- the loop, with the results so far and the number of successes
  unfoldable pub handle_configs :
      ℤ → Bool → List PortConfig → List PortResult → ℕ → W → (List PortResult × ℕ) × W
  handle_configs id open_ports [] results count w = ((results, count), w)
  handle_configs id open_ports (config ∷ configs) results count w =
      let (result, w') = handle_config id open_ports config w in
      handle_configs id open_ports configs (results ++ result ∷ [])
        (if result.success then count + 1 else count) w'

  response_of : ℕ → List PortResult × ℕ → SetInstancePortResp
  response_of total (results, count) = record {
    success = count == total;
    results = results;
    message =
        if count == total
        then "success"
        else join (itoa count ∷ "/" ∷ itoa total ∷ " ports processed successfully" ∷ []);
  }

  answer_request : SetInstancePortReq → M W SetInstancePortResp
  answer_request req w =
      let (loop, w') = handle_configs req.instance_id req.open_ports req.port_configs [] 0 w in
      (ok (response_of (length req.port_configs) loop), w')

  unfoldable pub set_instance_ports : Option SetInstancePortReq → M W SetInstancePortResp
  unfolding answer_request response_of
  set_instance_ports none = fail (kratos 400 "INVALID_ARGUMENT" "request is required")
  set_instance_ports (some req) =
      if is_zero req.instance_id
      then fail (kratos 400 "INVALID_ARGUMENT" "instance_id is required")
      else if length req.port_configs == 0
      then fail (kratos 400 "INVALID_ARGUMENT" "port_configs is required")
      else answer_request req
