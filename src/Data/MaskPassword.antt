-- ===== src/Data/MaskPassword.antt =====
-- maskPassword of internal/data/rabbitmq.go. A URL is the list of its bytes.
pub mod Hidden
use run_all_resource.Prelude.{
  ℕ, zero, suc, ◌+◌, ◌-◌, Option, none, some, List, [], ◌∷◌, ◌++◌, length, take, drop, ltb, ◌==◌,
  if◌then◌else◌,
}

-- `for i := at; i < …; i++ { if url[i] == byte }` over the bytes from position `at` on
unfoldable pub find_from : ℕ → ℕ → List ℕ → Option ℕ
find_from byte at [] = none
find_from byte at (c ∷ url) = if c == byte then some at else find_from byte (at + 1) url

-- `atIdx`: the place of the first '@' from `start` on, or `start` if there is none
abbrev pub at_index : ℕ → Option ℕ → ℕ
at_index start none = start
at_index start (some i) = i

mask_at : List ℕ → ℕ → Option ℕ → List ℕ
mask_at url at none = url
mask_at url at (some colon) = take (colon + 1) url ++ (42 ∷ 42 ∷ 42 ∷ []) ++ drop at url

-- The scheme is taken to have the length of "amqp://", which is 7.
unfoldable pub mask_password : List ℕ → List ℕ
unfolding mask_at find_from
mask_password url =
    let start : ℕ = 7 in
    let at = at_index start (find_from 64 start (drop start url)) in
    if ltb (length url) 10
    then url
    else if ltb start at
    then mask_at url at (find_from 58 start (take (at - start) (drop start url)))
    else url
