-- ===== src/Go/Text/Within.antt =====
-- Where a text stands within another, beside strings.Contains.
use Prim.Native.String.{[], ◌∷◌}
use mathlib.Core.Path.{subst}
use text.Mathlib.Text.{starts_with}
use text.Mathlib.TextEquality.{starts_with_iff}
use text.Mathlib.TextLemmas.{cons-append, nil-append}
use run_all_resource.Prelude.{
  String, append, ap, ◌∙◌, sym, ◌≡◌, ◌↔◌, refl, true, Bool-cases, inl, inr, arith,
}
use run_all_resource.Go.Text.{contains}

-- `part` stands within `s`: something before it and something after it make up `s`.
abbrev pub Within : String → String → Type 0
Within part s = (before : String) × (after : String) × (append before (append part after) ≡ s)

contains-Within : (s part : String) → contains s part ≡ true → Within part s
unfolding contains
contains-Within [] part h =
    let (after, e) = (starts_with_iff [] part).0 h in
    ("", after, nil-append (append part after) ∙ e)
contains-Within (c ∷ s) part h = elim (Bool-cases (starts_with (c ∷ s) part)) [
  | inl starts ↦
      let (after, e) = (starts_with_iff (c ∷ s) part).0 starts in
      ("", after, nil-append (append part after) ∙ e)
  | inr starts_not ↦
      let (before, after, e) = contains-Within s part (ground arith) in
      (c ∷ before, after, cons-append c before (append part after) ∙ ap (λ t. c ∷ t) e)
]

starts-contains : (s part : String) → starts_with s part ≡ true → contains s part ≡ true
unfolding contains
starts-contains [] part h = h
starts-contains (c ∷ s) part h = rw h refl

behind : (before part after : String) → contains (append before (append part after)) part ≡ true
unfolding contains
behind [] part after = starts-contains (append "" (append part after)) part (
    (starts_with_iff (append "" (append part after)) part).1
      (after, sym (nil-append (append part after))))
behind (c ∷ before) part after =
    rw (cons-append c before (append part after))
      (let rest = behind before part after in ground arith)

-- strings.Contains says whether a text stands within another.
pub contains_iff : (s part : String) → (contains s part ≡ true) ↔ Within part s
contains_iff s part = (
  contains-Within s part,
  (λ (before, after, e). subst (λ t. contains t part ≡ true) e (behind before part after)),
)
