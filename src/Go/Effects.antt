-- ===== src/Go/Effects.antt =====
-- Functions that return a value or an error and may change the state of the world `W`. What was done
-- before an error stays done, so the state comes back beside the error too.
use run_all_resource.Prelude.{◌≡◌, refl}
use run_all_resource.Go.Errors.{Error}

pub data Result (A : Type 0) : Type 0 where
  ok : A → Result A
  err : Error → Result A

-- `v, err := r; if err != nil { return err }` without a state
abbrev pub then_with : {A B : Type 0} → Result A → (A → Result B) → Result B
then_with (ok a) f = f a
then_with (err e) f = err e

abbrev pub M : Type 0 → Type 0 → Type 0
M W A = W → Result A × W

module _ {W A : Type 0} where
  abbrev pub pure : A → M W A
  pure a w = (ok a, w)

  abbrev pub fail : Error → M W A
  fail e w = (err e, w)

  -- a value or an error that was found without the world
  abbrev pub of_result : Result A → M W A
  of_result r w = (r, w)

  -- `v, err := m` where the code goes on after an error
  abbrev pub attempt : M W A → M W (Result A)
  attempt m w = let (r, w') = m w in (ok r, w')

  -- `_ = m`
  abbrev pub ignore : M W A → M W (Unit {0})
  ignore m w = let (r, w') = m w in (ok tt, w')

infixl 5 ◌>>=◌ ◌>>◌
abbrev pub ◌>>=◌ : {W A B : Type 0} → M W A → (A → M W B) → M W B
◌>>=◌ m f w = let (r, w') = m w in elim r [ ok a ↦ f a w' | err e ↦ (err e, w') ]

abbrev pub ◌>>◌ : {W A B : Type 0} → M W A → M W B → M W B
m >> k = m >>= λ _. k

-- `if err != nil { return fmt.Errorf(…) }`: the error is given another form
abbrev pub on_error : {W A : Type 0} → (Error → Error) → M W A → M W A
on_error f m w = let (r, w') = m w in elim r [ ok a ↦ (ok a, w') | err e ↦ (err (f e), w') ]

pub then_with-ok :
    {A B : Type 0} (r : Result A) (f : A → Result B) (b : B)
    → then_with r f ≡ ok b
    → (a : A) × (r ≡ ok a) × (f a ≡ ok b)
then_with-ok (ok a) f b h = (a, refl, h)
then_with-ok (err e) f b h = cc

pub bind-ok :
    {W A B : Type 0} (m : M W A) (f : A → M W B) (w : W) (b : B)
    → ((m >>= f) w).0 ≡ ok b
    → (a : A) × ((m w).0 ≡ ok a) × ((f a (m w).1).0 ≡ ok b)
bind-ok {W} {A} {B} m f w b h = let (r, w') = m w in went r w' h
  where
    went :
        (r : Result A) (w' : W)
        → (((λ (s : W). (r, w')) >>= f) w).0 ≡ ok b
        → (a : A) × (r ≡ ok a) × ((f a w').0 ≡ ok b)
    went (ok a) w' k = (a, refl, k)
    went (err e) w' k = cc
