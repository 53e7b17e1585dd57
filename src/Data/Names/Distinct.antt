-- ===== src/Data/Names/Distinct.antt =====
-- The names of different ports.
use text.Mathlib.TextLemmas.{append_cancel_left}
use mathlib.Core.Path.{ap₂}
use run_all_resource.Prelude.{ℕ, String, ℤ, append, ◌≡◌, ◌↔◌}
use run_all_resource.Go.Decimal.{itoa, format_int}
use run_all_resource.Go.Decimal.ReadBack.{format_int-injective}
use run_all_resource.Go.Decimal.Dashless.{before_and_number}
use run_all_resource.Data.Names.{generate_service_name, generate_ingress_name}

-- Two ports of instances have one service name exactly if they are one port of one instance, and so for
-- their ingress names; negative identifiers, which print a dash, included.
pub names_distinct :
    (a b : ℤ) (p q : ℕ)
    → ((generate_service_name (format_int a) p ≡ generate_service_name (format_int b) q)
        ↔ ((a ≡ b) × (p ≡ q)))
      × ((generate_ingress_name (format_int a) p ≡ generate_ingress_name (format_int b) q)
          ↔ ((a ≡ b) × (p ≡ q)))
unfolding generate_service_name generate_ingress_name
names_distinct a b p q = (behind "instance-", behind "ingress-")
  where
    behind :
        (prefix : String)
        → (append prefix (append (format_int a) (append "-" (itoa p)))
            ≡ append prefix (append (format_int b) (append "-" (itoa q))))
          ↔ ((a ≡ b) × (p ≡ q))
    behind prefix = (
      (λ h.
          let (same_id, same_port) =
            before_and_number (format_int a) (format_int b) p q (append_cancel_left prefix _ _ h) in
          (format_int-injective a b same_id, same_port)),
      (λ same.
          ap₂ (λ i n. append prefix (append (format_int i) (append "-" (itoa n)))) same.0 same.1),
    )
