-- ===== src/Data/MaskPassword/Hidden.antt =====
-- What maskPassword makes of a URL with a user and a password.
use mathlib.Core.List.{append_assoc}
use mathlib.Core.Path.{ap₂}
use run_all_resource.Prelude.{
  ℕ, ◌+◌, ◌-◌, ◌≤◌, ◌<◌, ◌≡◌, ◌≢◌, refl, sym, ap, ◌∙◌, some, List, [], ◌∷◌, ◌++◌, arith, length,
  length-append, All, All-append,
}
use run_all_resource.Data.MaskPassword.{take, drop, find_from, mask_at, mask_password}

abbrev Without : ℕ → List ℕ → Type 0
Without byte = All (λ c. c ≢ byte)

find_from-append :
    (byte at : ℕ) (xs ys : List ℕ)
    → Without byte xs
    → find_from byte at (xs ++ byte ∷ ys) ≡ some (at + length xs)
unfolding find_from
find_from-append byte at [] ys none_in = ground arith
find_from-append byte at (x ∷ xs) ys (differs, none_in) =
    ground (arith, find_from-append byte (at + 1) xs ys none_in)

take-append : (xs ys : List ℕ) → take (length xs) (xs ++ ys) ≡ xs
take-append [] ys = refl
take-append (x ∷ xs) ys = ap (λ l. x ∷ l) (take-append xs ys)

drop-append : (xs ys : List ℕ) → drop (length xs) (xs ++ ys) ≡ ys
drop-append [] ys = refl
drop-append (x ∷ xs) ys = drop-append xs ys

-- take and drop at a place that is given by a number
take_at : (n : ℕ) (xs ys : List ℕ) → length xs ≡ n → take n (xs ++ ys) ≡ xs
take_at n xs ys same = rw (sym same) (take-append xs ys)

drop_at : (n : ℕ) (xs ys : List ℕ) → length xs ≡ n → drop n (xs ++ ys) ≡ ys
drop_at n xs ys same = rw (sym same) (drop-append xs ys)

-- what the code computes where the first '@' and the first ':' are where they are said to be
mask_password-found :
    (url after cred : List ℕ) (at colon : ℕ)
    → 10 ≤ length url
    → drop 7 url ≡ after
    → find_from 64 7 after ≡ some at
    → 7 < at
    → take (at - 7) after ≡ cred
    → find_from 58 7 cred ≡ some colon
    → mask_password url ≡ take (colon + 1) url ++ (42 ∷ 42 ∷ 42 ∷ []) ++ drop at url
unfolding mask_password mask_at
mask_password-found url after cred at colon long dropped found behind taken sep =
    ground (arith, long, dropped, found, taken, sep)

-- In a URL whose scheme takes 7 bytes, as "amqp://" does, whose user has no ':' and no '@' and whose
-- password has no '@', the password is replaced by three stars and all else is kept, so the result does
-- not depend on the password; an URL of fewer than 10 bytes is not covered.
pub mask_password-hides :
    (scheme user password rest : List ℕ)
    → length scheme ≡ 7
    → Without 58 user
    → Without 64 user
    → Without 64 password
    → let cred = user ++ 58 ∷ password in
      let url = scheme ++ (cred ++ 64 ∷ rest) in
      10 ≤ length url
      → mask_password url ≡ (scheme ++ user ++ 58 ∷ []) ++ (42 ∷ 42 ∷ 42 ∷ 64 ∷ rest)
mask_password-hides scheme user password rest seven no_colon no_at hidden long =
    let cred = user ++ 58 ∷ password in
    let url = scheme ++ (cred ++ 64 ∷ rest) in
    let head = scheme ++ user ++ 58 ∷ [] in
    let size : length cred ≡ length user + 1 + length password =
      omega (arith, length-append user (58 ∷ password)) in
    let no_at_in : Without 64 cred =
      All-append (λ c. c ≢ 64) user (58 ∷ password) no_at ((λ e. omega arith), hidden) in
    let after_colon = password ++ 64 ∷ rest in
    let split_head : url ≡ head ++ after_colon =
      ap (λ l. scheme ++ l) (append_assoc user (58 ∷ password) (64 ∷ rest))
      ∙ sym (append_assoc scheme user (58 ∷ after_colon))
      ∙ sym (append_assoc (scheme ++ user) (58 ∷ []) after_colon) in
    let head_size : length head ≡ 7 + length user + 1 =
      omega (arith, length-append (scheme ++ user) (58 ∷ []), length-append scheme user) in
    let kept_before : take (7 + length user + 1) url ≡ head =
      ap (take (7 + length user + 1)) split_head
      ∙ take_at (7 + length user + 1) head after_colon head_size in
    let kept_after : drop (7 + length cred) url ≡ 64 ∷ rest =
      ap (drop (7 + length cred)) (sym (append_assoc scheme cred (64 ∷ rest)))
      ∙ drop_at (7 + length cred) (scheme ++ cred) (64 ∷ rest)
          (omega (arith, length-append scheme cred)) in
    mask_password-found url (cred ++ 64 ∷ rest) cred (7 + length cred) (7 + length user) long
      (drop_at 7 scheme (cred ++ 64 ∷ rest) seven) (find_from-append 64 7 cred rest no_at_in)
      (omega (arith, size)) (take_at (7 + length cred - 7) cred (64 ∷ rest) (omega arith))
      (find_from-append 58 7 user password no_colon)
    ∙ ap₂ (λ a b. a ++ (42 ∷ 42 ∷ 42 ∷ []) ++ b) kept_before kept_after
    ∙ append_assoc head (42 ∷ 42 ∷ 42 ∷ []) (64 ∷ rest)
