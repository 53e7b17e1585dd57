-- ===== src/Go/Decimal.antt =====
-- strconv.Itoa, strconv.FormatInt(·, 10) and the verb %d.
pub mod ReadBack
pub mod Dashless
use mathlib.Core.Logic.{dite}
use mathlib.Core.WellFounded.{Acc, WellFounded}
use native.Mathlib.Decide.{dec_lt}
use run_all_resource.Prelude.{
  ℕ, zero, suc, ◌/◌, ◌%◌, ◌<◌, String, append, ◌≡◌, refl, arith, ℤ, pos, negsuc,
}

acc_below : (k n : ℕ) → n < k → Acc ◌<◌ n
acc_below zero n h = elim h [ ]
acc_below (suc k) n h = Acc.intro n (λ m hm. acc_below k m (omega arith))

lt_wf : WellFounded ◌<◌
unfolding acc_below
lt_wf = record { apply = λ n. acc_below (suc n) n (omega arith) }

digit : ℕ → String
digit zero = "0"
digit (suc zero) = "1"
digit (suc (suc zero)) = "2"
digit (suc (suc (suc zero))) = "3"
digit (suc (suc (suc (suc zero)))) = "4"
digit (suc (suc (suc (suc (suc zero))))) = "5"
digit (suc (suc (suc (suc (suc (suc zero)))))) = "6"
digit (suc (suc (suc (suc (suc (suc (suc zero))))))) = "7"
digit (suc (suc (suc (suc (suc (suc (suc (suc zero)))))))) = "8"
digit _ = "9"

tenth_lt : (n : ℕ) → ¬ (n < 10) → n / 10 < n
tenth_lt n h = omega arith

digits : (n : ℕ) → Acc ◌<◌ n → String
digits n (Acc.intro _ smaller) =
    dite (dec_lt n 10) (λ _. digit n)
      (λ h. append (digits (n / 10) (smaller (n / 10) (tenth_lt n h))) (digit (n % 10)))

unfoldable pub itoa : ℕ → String
unfolding digits digit tenth_lt lt_wf dec_lt
itoa n = digits n (lt_wf.apply n)

unfoldable pub format_int : ℤ → String
format_int (pos n) = itoa n
format_int (negsuc n) = append "-" (itoa (suc n))

itoa_port : itoa 30102 ≡ "30102"
unfolding itoa
itoa_port = refl

format_int_negative : format_int (negsuc 41) ≡ "-42"
unfolding format_int itoa
format_int_negative = refl
