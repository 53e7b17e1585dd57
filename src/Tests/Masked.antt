-- ===== src/Tests/Masked.antt =====
-- Masking the password of a URL at a concrete input.
use run_all_resource.Prelude.{ℕ, ◌≡◌, refl, List, [], ◌∷◌, ◌++◌, arith}
use run_all_resource.Data.MaskPassword.{mask_password}
use run_all_resource.Data.MaskPassword.Hidden.{mask_password-hides}

-- "amqp://"
abbrev amqp : List ℕ
amqp = 97 ∷ 109 ∷ 113 ∷ 112 ∷ 58 ∷ 47 ∷ 47 ∷ []

-- "amqp://u:pw@h" becomes "amqp://u:***@h"
mask_password-hides_example :
    mask_password (amqp ++ 117 ∷ 58 ∷ 112 ∷ 119 ∷ 64 ∷ 104 ∷ [])
    ≡ amqp ++ 117 ∷ 58 ∷ 42 ∷ 42 ∷ 42 ∷ 64 ∷ 104 ∷ []
mask_password-hides_example =
    mask_password-hides amqp (117 ∷ []) (112 ∷ 119 ∷ []) (104 ∷ []) refl ((λ e. omega arith), tt)
      ((λ e. omega arith), tt) ((λ e. omega arith), ((λ e. omega arith), tt)) (omega arith)
