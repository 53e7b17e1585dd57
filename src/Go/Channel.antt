-- ===== src/Go/Channel.antt =====
-- Go channels with a buffer. What a goroutine does next is a function of the state: it moves, it waits,
-- or the program panics.
use run_all_resource.Prelude.{
  ℕ, ◌≡◌, ◌≢◌, refl, ◌⊎◌, inl, inr, Bool, true, false, List, [], ◌∷◌, ◌++◌, length, ltb,
  if◌then◌else◌,
}

pub data Turn (S : Type 0) : Type 0 where
  moved : S → Turn S
  blocked panicked : Turn S

pub record Channel (A : Type 0) : Type 0 where
  pub items : List A
  pub closed : Bool

pub data Received (A : Type 0) : Type 0 where
  item : A → Channel A → Received A
  ended nothing : Received A

abbrev pub map_turn : {S T : Type 0} → (S → T) → Turn S → Turn T
map_turn f (moved s) = moved (f s)
map_turn f blocked = blocked
map_turn f panicked = panicked

pub Turn-moved : {S : Type 0} (r : Turn S) → r ≢ blocked → r ≢ panicked → (s : S) × (r ≡ moved s)
Turn-moved (moved s) h k = (s, refl)
Turn-moved blocked h k = absurd (h refl)
Turn-moved panicked h k = absurd (k refl)

pub map_turn-moved :
    {S T : Type 0} (f : S → T) (r : Turn S) (t : T)
    → map_turn f r ≡ moved t
    → (s : S) × (r ≡ moved s) × (f s ≡ t)
map_turn-moved f (moved s) t h = (s, refl, cc)
map_turn-moved f blocked t h = cc
map_turn-moved f panicked t h = cc

pub map_turn-panicked :
    {S T : Type 0} (f : S → T) (r : Turn S) → map_turn f r ≡ panicked → r ≡ panicked
map_turn-panicked f (moved s) h = cc
map_turn-panicked f blocked h = cc
map_turn-panicked f panicked h = refl

module _ {A : Type 0} where
  -- `make(chan A, n)`
  abbrev pub make_channel : Channel A
  make_channel = record { items = []; closed = false }

  -- `c <- x` where the buffer of `c` holds `capacity` items
  abbrev pub send : ℕ → A → Channel A → Turn (Channel A)
  send capacity x c =
      if c.closed
      then panicked
      else if ltb (length c.items) capacity
      then moved (record c { items = c.items ++ x ∷ [] })
      else blocked

  abbrev receive_from : List A → Bool → Received A
  receive_from (x ∷ xs) closed = item x (record { items = xs; closed = closed })
  receive_from [] true = ended
  receive_from [] false = nothing

  -- `x, ok := <-c`: what is left in the buffer comes out of a closed channel too
  abbrev pub receive : Channel A → Received A
  receive c = receive_from c.items c.closed

  -- `close(c)`
  abbrev pub close : Channel A → Turn (Channel A)
  close c = if c.closed then panicked else moved (record c { closed = true })

  pub receive-cases :
      (c : Channel A)
      → ((x : A) × (rest : List A) × (c.items ≡ x ∷ rest)
          × (receive c ≡ item x (record { items = rest; closed = c.closed })))
        ⊎ (((c.items ≡ []) × (c.closed ≡ true) × (receive c ≡ ended)) ⊎ (receive c ≡ nothing))
  receive-cases c = split c.items c.closed
    where
      split :
          (xs : List A) (closed : Bool)
          → ((x : A) × (rest : List A) × (xs ≡ x ∷ rest)
              × (receive_from xs closed ≡ item x (record { items = rest; closed = closed })))
            ⊎ (((xs ≡ []) × (closed ≡ true) × (receive_from xs closed ≡ ended))
                ⊎ (receive_from xs closed ≡ nothing))
      split (x ∷ xs) closed = inl (x, xs, refl, refl)
      split [] true = inr (inl (refl, refl, refl))
      split [] false = inr (inr refl)
