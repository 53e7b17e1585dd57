-- ===== src/Biz/Ports/Claims.antt =====
-- What an exposure of a port claims of the cluster and the database, and what releasing it leaves.
use run_all_resource.Prelude.{
  ℕ, String, ℤ, ◌≡◌, refl, ◌⊎◌, Option, none, some, List, [], ◌∷◌, ◌++◌, arith, true, eq_refl,
}
use run_all_resource.Go.{Result, ok, err}
use run_all_resource.Biz.Types.{NetworkBinding}
use run_all_resource.Biz.Ports.{Exposure}
use run_all_resource.Biz.Ports.Ledger.{
  Claim, claim_eq, service, ingress, entry, binding, release, Ledgered,
}

-- The claims of what an exposure consists of, as they stand in the ledger.
abbrev pub ingress_claims : String → Option String → List Claim
ingress_claims namespace none = []
ingress_claims namespace (some name) = ingress namespace name ∷ []

abbrev pub entry_claims : String → Option ℕ → List Claim
entry_claims protocol none = []
entry_claims protocol (some external) = entry protocol external ∷ []

abbrev pub parts : String → String → String → Option String → Option ℕ → List Claim
parts namespace protocol service_name ingress_name external_port =
    ingress_claims namespace ingress_name
    ++ entry_claims protocol external_port
    ++ service namespace service_name ∷ []

abbrev pub claims_of : String → String → Exposure → List Claim
claims_of namespace protocol e =
    parts namespace protocol e.service_name e.ingress_name e.external_port

abbrev pub binding_claims : String → NetworkBinding → List Claim
binding_claims namespace b =
    parts namespace b.protocol b.service_name b.ingress_name b.external_port

-- An HTTP port is exposed by an ingress, a TCP or UDP port by an external port.
abbrev pub Suits : String → Exposure → Type 0
Suits protocol e =
    ((protocol ≡ "HTTP")
      × ((name : String) × (e.ingress_name ≡ some name))
      × (e.external_port ≡ none))
    ⊎ (((protocol ≡ "TCP") ⊎ (protocol ≡ "UDP"))
        × (e.ingress_name ≡ none)
        × ((external : ℕ) × (e.external_port ≡ some external)))

-- An exposure that fails leaves nothing; one that succeeds leaves its own parts, as its protocol needs
-- them.
abbrev pub ExposeBalanced :
    {W : Type 0} → String → String → List Claim → Result Exposure × Ledgered W → Type 0
ExposeBalanced namespace protocol held (ok e, s) =
    Suits protocol e × (s.1 ≡ claims_of namespace protocol e ++ held)
ExposeBalanced namespace protocol held (err e, s) = s.1 ≡ held

-- What a call of openPort has left, by how it ended; `found` is what the lookup of the port gave.
abbrev pub OpenBalanced :
    {W : Type 0}
    → ℤ
    → String
    → ℕ
    → String
    → Result (Option NetworkBinding)
    → List Claim
    → Result String × Ledgered W
    → Type 0
OpenBalanced id namespace port protocol found held (err e, s) = s.1 ≡ held
OpenBalanced id namespace port protocol found held (ok url, s) =
    ((b : NetworkBinding) × (found ≡ ok (some b))
      × (b.enabled ≡ true)
      × (url ≡ b.access_url)
      × (s.1 ≡ held))
    ⊎ ((e : Exposure) × Suits protocol e
        × (url ≡ e.access_url)
        × (s.1 ≡ binding id port ∷ claims_of namespace protocol e ++ held))

abbrev pub persisted_claims : ℤ → ℕ → Result (Unit {0}) → List Claim
persisted_claims id port (ok _) = binding id port ∷ []
persisted_claims id port (err e) = []

-- What the clean up crosses out: the service, the ingress and the entry, where there are such.
abbrev pub release_ingress : String → Option String → List Claim → List Claim
release_ingress namespace none held = held
release_ingress namespace (some name) held = release (ingress namespace name) held

abbrev pub release_entry : String → Option ℕ → List Claim → List Claim
release_entry protocol none held = held
release_entry protocol (some external) held = release (entry protocol external) held

abbrev pub release_parts :
    String → String → Option String → String → Option ℕ → List Claim → List Claim
release_parts namespace service_name i protocol x held =
    release_entry protocol x
      (release_ingress namespace i (release (service namespace service_name) held))

pub release_parts-parts :
    (namespace service_name : String) (i : Option String) (protocol : String) (x : Option ℕ)
    (held : List Claim)
    → release_parts namespace service_name i protocol x
        (parts namespace protocol service_name i x ++ held)
      ≡ held
unfolding release claim_eq
release_parts-parts ns name none protocol none held = ground (arith, eq_refl ns, eq_refl name)
release_parts-parts ns name none protocol (some k) held =
    ground (arith, eq_refl ns, eq_refl name, eq_refl protocol)
release_parts-parts ns name (some n) protocol none held =
    ground (arith, eq_refl ns, eq_refl name, eq_refl n)
release_parts-parts ns name (some n) protocol (some k) held =
    ground (arith, eq_refl ns, eq_refl name, eq_refl protocol, eq_refl n)

pub release_parts-row :
    (namespace service_name : String) (i : Option String) (protocol : String) (x : Option ℕ)
    (id : ℤ) (port : ℕ) (held : List Claim)
    → release_parts namespace service_name i protocol x (binding id port ∷ held)
      ≡ binding id port ∷ release_parts namespace service_name i protocol x held
unfolding release claim_eq
release_parts-row ns name none protocol none id port held = refl
release_parts-row ns name none protocol (some k) id port held = refl
release_parts-row ns name (some n) protocol none id port held = refl
release_parts-row ns name (some n) protocol (some k) id port held = refl
