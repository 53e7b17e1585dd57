-- ===== src/Go/Text.antt =====
-- strings.Contains, and the text of a dash.
pub mod Within
use Prim.Native.Char.{Char, code}
use Prim.Native.String.{[], ◌∷◌}
use text.Mathlib.TextLemmas.{cons-append, nil-append}
use run_all_resource.Prelude.{
  ℕ, List, ◌==◌, if◌then◌else◌, String, append, ap, ◌∙◌, ◌≡◌, refl, Bool, true, false, ◌||◌,
}
use text.Mathlib.Text.{starts_with}

abbrev pub dash : Char
dash = "-"

pub append-dash : (t : String) → append "-" t ≡ dash ∷ t
append-dash t = cons-append dash [] t ∙ ap (λ (u : String). dash ∷ u) (nil-append t)

-- `[]byte(s)`; a character of a text stands for a byte
abbrev pub bytes_of : String → List ℕ
bytes_of [] = List.[]
bytes_of (c ∷ s) = List.◌∷◌ (code c) (bytes_of s)

unfoldable pub contains : String → String → Bool
contains [] part = starts_with [] part
contains (c ∷ s) part = starts_with (c ∷ s) part || contains s part

contains_tests :
    (contains "read tcp: i/o timeout" "timeout" ≡ true) × (contains "time out" "timeout" ≡ false)
unfolding contains
contains_tests = (refl, refl)

-- `c` with the letters of `upper` replaced by those of `lower`
replace_in : String → String → Char → Char
replace_in [] lower c = c
replace_in (u ∷ upper) [] c = c
replace_in (u ∷ upper) (l ∷ lower) c = if code c == code u then l else replace_in upper lower c

-- strings.ToLower of a text of ASCII characters
unfoldable pub to_lower : String → String
unfolding replace_in
to_lower [] = ""
to_lower (c ∷ s) =
    replace_in "ABCDEFGHIJKLMNOPQRSTUVWXYZ" "abcdefghijklmnopqrstuvwxyz" c ∷ to_lower s

to_lower_test : to_lower "TCP-80" ≡ "tcp-80"
unfolding to_lower
to_lower_test = refl
