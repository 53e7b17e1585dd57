-- ===== src/Go/Decimal/Dashless.antt =====
-- Names that end in a dash and a decimal, taken apart at the last dash.
use Prim.Native.Char.{code}
use Prim.Native.String.{[], ◌∷◌}
use text.Mathlib.TextLemmas.{cons-append, nil-append, append-nil, append_assoc, append_cancel_right}
use mathlib.Core.WellFounded.{Acc}
use mathlib.Core.Logic.{dif_pos, dif_neg}
use native.Mathlib.Decide.{dec_lt}
use native.Mathlib.Bridge.{le_prop}
use run_all_resource.Prelude.{
  ℕ, zero, suc, ◌<◌, ◌/◌, ◌%◌, String, append, ◌≡◌, refl, sym, ap, ◌∙◌, arith, Bool, true, false,
  not, ◌&&◌, ◌==◌, if◌then◌else◌,
}
use run_all_resource.Go.Text.{append-dash}
use run_all_resource.Go.Decimal.ReadBack.{itoa-injective}
use run_all_resource.Go.Decimal.{digit, digits, lt_wf, tenth_lt, itoa}

dashless : String → Bool
dashless [] = true
dashless (c ∷ s) = not (code c == 45) && dashless s

dashless-append :
    (s t : String) → dashless s ≡ true → dashless t ≡ true → dashless (append s t) ≡ true
unfolding dashless
dashless-append [] t h k = rw nil-append k
dashless-append (c ∷ s) t h k = rw cons-append (ground (arith, dashless-append s t))

dashless-digit : (d : ℕ) → dashless (digit d) ≡ true
unfolding dashless digit
dashless-digit zero = refl
dashless-digit (suc zero) = refl
dashless-digit (suc (suc zero)) = refl
dashless-digit (suc (suc (suc zero))) = refl
dashless-digit (suc (suc (suc (suc zero)))) = refl
dashless-digit (suc (suc (suc (suc (suc zero))))) = refl
dashless-digit (suc (suc (suc (suc (suc (suc zero)))))) = refl
dashless-digit (suc (suc (suc (suc (suc (suc (suc zero))))))) = refl
dashless-digit (suc (suc (suc (suc (suc (suc (suc (suc zero)))))))) = refl
dashless-digit _ = refl

dashless-digits : (n : ℕ) (w : Acc ◌<◌ n) → dashless (digits n w) ≡ true
unfolding digits
dashless-digits n (Acc.intro _ smaller) = elim (dec_lt n 10) [
  | yes h ↦ rw (dif_pos _ le_prop h) (dashless-digit n)
  | no h ↦ rw (dif_neg _ h) (
      dashless-append _ _ (dashless-digits (n / 10) (smaller (n / 10) (tenth_lt n h)))
        (dashless-digit (n % 10)))
]

dashless-itoa : (n : ℕ) → dashless (itoa n) ≡ true
unfolding itoa
dashless-itoa n = dashless-digits n (lt_wf.apply n)

-- what follows the last dash, or the whole text behind `seen` if there is none
after_last : String → String → String
after_last seen [] = seen
after_last seen (c ∷ s) = after_last (if code c == 45 then "" else append seen (c ∷ [])) s

after_last-dashless : (seen s : String) → dashless s ≡ true → after_last seen s ≡ append seen s
unfolding after_last dashless
after_last-dashless seen [] h = sym (append-nil seen)
after_last-dashless seen (c ∷ s) h =
    step (code c == 45) h (after_last-dashless (append seen (c ∷ [])) s)
  where
    step :
        (b : Bool)
        → (not b && dashless s) ≡ true
        → (dashless s ≡ true
            → after_last (append seen (c ∷ [])) s ≡ append (append seen (c ∷ [])) s)
        → after_last (if b then "" else append seen (c ∷ [])) s ≡ append seen (c ∷ s)
    step true k ih = cc
    step false k ih =
        ih k
        ∙ append_assoc seen (c ∷ []) s
        ∙ ap (append seen) (cons-append c [] s ∙ ap (λ (u : String). c ∷ u) (nil-append s))

after_last-append :
    (seen s t : String) → dashless t ≡ true → after_last seen (append s (append "-" t)) ≡ t
unfolding after_last
after_last-append seen [] t h =
    rw (nil-append, append-dash) (after_last-dashless "" t h ∙ nil-append t)
after_last-append seen (c ∷ s) t h =
    rw cons-append (after_last-append (if code c == 45 then "" else append seen (c ∷ [])) s t h)

-- Two texts that end in a dash and a number are equal only if the numbers are, and what is before.
pub before_and_number :
    (s t : String) (m n : ℕ)
    → append s (append "-" (itoa m)) ≡ append t (append "-" (itoa n))
    → (s ≡ t) × (m ≡ n)
before_and_number s t m n h =
    let ends =
      sym (after_last-append "" s (itoa m) (dashless-itoa m))
      ∙ ap (after_last "") h
      ∙ after_last-append "" t (itoa n) (dashless-itoa n) in
    let same = itoa-injective m n ends in
    (
      append_cancel_right s t (append "-" (itoa m))
          (h ∙ ap (λ k. append t (append "-" (itoa k))) (sym same)),
      same,
    )
