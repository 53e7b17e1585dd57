-- ===== src/Service/PortConfigs/Valid.antt =====
-- Which configs reach the use case.
use run_all_resource.Prelude.{
  ◌≤◌, String, ℤ, ◌≡◌, ◌≢◌, ◌⊎◌, inl, inr, refl, Bool, true, false, Option, none, some, arith,
  eq_iff, if◌then◌else◌,
}
use run_all_resource.Go.{Error, Texts, error_text, Result, ok, err}
use run_all_resource.Biz.Repos.{ResourceUsecase}
use run_all_resource.Biz.Ports.{set_instance_port}
use run_all_resource.Service.PortConfigs.{
  PortConfig, PortResult, protocol_of, config_error, handle_config, checked_config, result_of,
}

-- The protocol that a config asks for: HTTP if it names none.
abbrev pub AsksFor : PortConfig → String → Type 0
AsksFor config protocol =
    ((config.protocol ≡ "") × (protocol ≡ "HTTP"))
    ⊎ ((config.protocol ≢ "") × (protocol ≡ config.protocol))

protocol_of-AsksFor : (config : PortConfig) → AsksFor config (protocol_of config)
unfolding protocol_of
protocol_of-AsksFor config = ground (arith, eq_iff config.protocol "")

-- What a config must be for its port to be set, where it asks for `protocol`.
pub record IsValid (config : PortConfig) (protocol : String) : Type 0 where
  pub in_range : (1 ≤ config.port) × (config.port ≤ 65535)
  pub known : (protocol ≡ "TCP") ⊎ ((protocol ≡ "UDP") ⊎ (protocol ≡ "HTTP"))
  pub domain : protocol ≡ "HTTP" → config.ingress_domain ≢ ""

config_error-IsValid :
    (config : PortConfig) → config_error config ≡ none → IsValid config (protocol_of config)
unfolding config_error
config_error-IsValid config h = record {
  in_range = (ground arith, ground arith);
  known = ground (
    arith,
    eq_iff (protocol_of config) "TCP",
    eq_iff (protocol_of config) "UDP",
    eq_iff (protocol_of config) "HTTP",
  );
  domain =
      λ p q. ground (arith, eq_iff (protocol_of config) "HTTP", eq_iff config.ingress_domain "");
}

IsValid-config_error :
    (config : PortConfig) → IsValid config (protocol_of config) → config_error config ≡ none
unfolding config_error
IsValid-config_error config v = ground (
  arith,
  eq_iff (protocol_of config) "TCP",
  eq_iff (protocol_of config) "UDP",
  eq_iff (protocol_of config) "HTTP",
  eq_iff config.ingress_domain "",
)

config_error-ne-empty :
    (config : PortConfig) (message : String) → config_error config ≡ some message → message ≢ ""
unfolding config_error
config_error-ne-empty config message h = ground (
  arith,
  eq_iff "invalid port number, must be 1-65535" "",
  eq_iff "invalid protocol, must be TCP, UDP or HTTP" "",
  eq_iff "ingress_domain is required for HTTP protocol" "",
)

module _ {W : Type 0} (uc : ResourceUsecase W) (texts : Texts) where
  -- The result of a port that was set, or that was not: a text of the error stands in one that failed,
  -- and a URL only in one that was opened.
  abbrev pub Succeeded : Bool → PortConfig → String → PortResult → Type 0
  Succeeded open_ports config url result =
      (result.port ≡ config.port)
      × (result.success ≡ true)
      × (result.error ≡ "")
      × (result.access_url ≡ (if open_ports then url else ""))

  abbrev pub Failed : PortConfig → String → PortResult → Type 0
  Failed config message result =
      (result.port ≡ config.port)
      × (result.success ≡ false)
      × (result.error ≡ message)
      × (result.access_url ≡ "")

  -- What is made of a config that asks for `protocol`: `called` is what the use case does with it.
  unfoldable pub Handled :
      Bool → PortConfig → String → W → Result String × W → PortResult × W → Type 0
  Handled open_ports config protocol w called (result, w') =
      ((¬ (IsValid config protocol))
        × ((message : String) × (message ≢ "") × Failed config message result)
        × (w' ≡ w))
      ⊎ (IsValid config protocol
          × (w' ≡ called.1)
          × (((url : String) × (called.0 ≡ ok url) × Succeeded open_ports config url result)
              ⊎ ((e : Error) × (called.0 ≡ err e) × Failed config (error_text texts e) result)))

  abbrev call : ℤ → Bool → PortConfig → String → W → Result String × W
  call id open_ports config protocol =
      set_instance_port uc id config.port protocol open_ports config.ingress_domain

  outcome :
      (open_ports : Bool) (config : PortConfig) (r : Result String)
      → ((url : String) × (r ≡ ok url)
          × Succeeded open_ports config url (result_of uc texts config.port open_ports r))
        ⊎ ((e : Error) × (r ≡ err e)
            × Failed config (error_text texts e) (result_of uc texts config.port open_ports r))
  unfolding result_of
  outcome open_ports config (ok url) = inl (url, refl, (refl, refl, refl, refl))
  outcome open_ports config (err e) = inr (e, refl, (refl, refl, refl, refl))

  checked_config-Handled :
      (id : ℤ) (open_ports : Bool) (config : PortConfig) (o : Option String) (w : W)
      → config_error config ≡ o
      → Handled open_ports config
          (protocol_of config)
          w
          (call id open_ports config (protocol_of config) w)
          (checked_config uc texts id open_ports config o w)
  unfolding checked_config Handled
  checked_config-Handled id open_ports config (some message) w h = inl (
    (λ v. cc (IsValid-config_error config v)),
    (message, config_error-ne-empty config message h, (refl, refl, refl, refl)),
    refl,
  )
  checked_config-Handled id open_ports config none w h = inr (
    config_error-IsValid config h,
    refl,
    outcome open_ports config (call id open_ports config (protocol_of config) w).0,
  )

  -- A config asks for the protocol that it names, or for HTTP if it names none. One that is not valid
  -- with it is answered with the text of an error and no URL, and changes nothing; a valid one is handed
  -- to the use case with this protocol, which alone decides whether it succeeds, and leaves the state
  -- that this leaves. A URL is answered only where ports are opened and this succeeds.
  pub handle_config-Handled :
      (id : ℤ) (open_ports : Bool) (config : PortConfig) (w : W)
      → (protocol : String) × AsksFor config protocol
        × Handled open_ports config protocol w
            (set_instance_port uc id config.port protocol open_ports config.ingress_domain w)
            (handle_config uc texts id open_ports config w)
  unfolding handle_config
  handle_config-Handled id open_ports config w = (
    protocol_of config,
    protocol_of-AsksFor config,
    checked_config-Handled id open_ports config (config_error config) w refl,
  )
