-- ===== src/Go/Decimal/ReadBack.antt =====
-- Reading decimals back.
use Prim.Native.Char.{code}
use Prim.Native.String.{[], ◌∷◌}
use text.Mathlib.TextLemmas.{cons-append, nil-append}
use mathlib.Core.WellFounded.{Acc}
use mathlib.Core.Logic.{dif_pos, dif_neg}
use native.Mathlib.Decide.{dec_lt}
use native.Mathlib.Bridge.{le_prop}
use run_all_resource.Prelude.{
  ℕ, zero, suc, ◌+◌, ◌-◌, ◌*◌, ◌/◌, ◌%◌, ◌<◌, String, append, ◌≡◌, refl, sym, ap, ◌∙◌, arith, Bool,
  true, false, ltb, if◌then◌else◌, ℤ, pos, negsuc,
}
use run_all_resource.Go.Text.{append-dash}
use run_all_resource.Go.Decimal.{digit, digits, lt_wf, tenth_lt, itoa, format_int}

pub read_from : ℕ → String → ℕ
read_from acc [] = acc
read_from acc (c ∷ s) = read_from (acc * 10 + (code c - 48)) s

read_from-append :
    (acc : ℕ) (s t : String) → read_from acc (append s t) ≡ read_from (read_from acc s) t
unfolding read_from
read_from-append acc [] t = rw nil-append
read_from-append acc (c ∷ s) t = rw cons-append (read_from-append (acc * 10 + (code c - 48)) s t)

read_from-digit : (acc d : ℕ) → d < 10 → read_from acc (digit d) ≡ acc * 10 + d
unfolding read_from digit
read_from-digit acc zero h = omega arith
read_from-digit acc (suc zero) h = omega arith
read_from-digit acc (suc (suc zero)) h = omega arith
read_from-digit acc (suc (suc (suc zero))) h = omega arith
read_from-digit acc (suc (suc (suc (suc zero)))) h = omega arith
read_from-digit acc (suc (suc (suc (suc (suc zero))))) h = omega arith
read_from-digit acc (suc (suc (suc (suc (suc (suc zero)))))) h = omega arith
read_from-digit acc (suc (suc (suc (suc (suc (suc (suc zero))))))) h = omega arith
read_from-digit acc (suc (suc (suc (suc (suc (suc (suc (suc zero)))))))) h = omega arith
read_from-digit acc _ h = omega arith

read_from-digits : (n : ℕ) (w : Acc ◌<◌ n) → read_from 0 (digits n w) ≡ n
unfolding digits
read_from-digits n (Acc.intro _ smaller) = elim (dec_lt n 10) [
  | yes h ↦ rw (dif_pos _ le_prop h) (read_from-digit 0 n h ∙ omega arith)
  | no h ↦
      rw (dif_neg _ h, read_from-append)
        (rw (read_from-digits (n / 10) (smaller (n / 10) (tenth_lt n h)))
          (read_from-digit (n / 10) (n % 10) (omega arith) ∙ omega arith))
]

pub read_from-itoa : (n : ℕ) → read_from 0 (itoa n) ≡ n
unfolding itoa
read_from-itoa n = read_from-digits n (lt_wf.apply n)

-- the text begins with a digit, so with no sign
leads : String → Bool
leads [] = false
leads (c ∷ s) = ltb 47 (code c)

leads-append : (s t : String) → leads s ≡ true → leads (append s t) ≡ true
unfolding leads
leads-append [] t h = cc
leads-append (c ∷ s) t h = rw cons-append h

leads-digit : (d : ℕ) → leads (digit d) ≡ true
unfolding leads digit
leads-digit zero = refl
leads-digit (suc zero) = refl
leads-digit (suc (suc zero)) = refl
leads-digit (suc (suc (suc zero))) = refl
leads-digit (suc (suc (suc (suc zero)))) = refl
leads-digit (suc (suc (suc (suc (suc zero))))) = refl
leads-digit (suc (suc (suc (suc (suc (suc zero)))))) = refl
leads-digit (suc (suc (suc (suc (suc (suc (suc zero))))))) = refl
leads-digit (suc (suc (suc (suc (suc (suc (suc (suc zero)))))))) = refl
leads-digit _ = refl

leads-digits : (n : ℕ) (w : Acc ◌<◌ n) → leads (digits n w) ≡ true
unfolding digits
leads-digits n (Acc.intro _ smaller) = elim (dec_lt n 10) [
  | yes h ↦ rw (dif_pos _ le_prop h) (leads-digit n)
  | no h ↦
      rw (dif_neg _ h) (leads-append _ _ (leads-digits (n / 10) (smaller (n / 10) (tenth_lt n h))))
]

leads-itoa : (n : ℕ) → leads (itoa n) ≡ true
unfolding itoa
leads-itoa n = leads-digits n (lt_wf.apply n)

-- a sign and a number
negated : ℕ → ℤ
negated zero = pos 0
negated (suc n) = negsuc n

read_tail : String → ℕ
read_tail [] = 0
read_tail (c ∷ s) = read_from 0 s

read_int : String → ℤ
read_int s = if leads s then pos (read_from 0 s) else negated (read_tail s)

read_int-format_int : (z : ℤ) → read_int (format_int z) ≡ z
unfolding read_int format_int
read_int-format_int (pos n) = rw (leads-itoa n) (ap pos (read_from-itoa n))
read_int-format_int (negsuc n) =
    rw (append-dash (itoa (suc n))) (unfold leads read_tail negated in rw (read_from-itoa (suc n)))

-- Two identifiers that are printed alike are equal.
pub format_int-injective : (a b : ℤ) → format_int a ≡ format_int b → a ≡ b
format_int-injective a b h = sym (read_int-format_int a) ∙ ap read_int h ∙ read_int-format_int b

pub itoa-injective : (a b : ℕ) → itoa a ≡ itoa b → a ≡ b
itoa-injective a b h = sym (read_from-itoa a) ∙ ap (read_from 0) h ∙ read_from-itoa b
