-- ===== src/Startup/Recording.antt =====
-- The calls of the libraries with a record of what is open, the last opened first, and how calls combine.
use run_all_resource.Prelude.{
  ◌≡◌, refl, Bool, true, false, Option, none, some, List, [], ◌∷◌, if◌then◌else◌,
}
use run_all_resource.Go.{Result, ok, err, M, ignore, of_result, ◌>>=◌, ◌>>◌}
use run_all_resource.Data.Clients.{Libraries}
use run_all_resource.Startup.{or_clean_up, deferred, Kratos}

pub data Handle : Type 0 where
  config_source database connection test_channel : Handle

abbrev pub same : Handle → Handle → Bool
same config_source config_source = true
same database database = true
same connection connection = true
same test_channel test_channel = true
same _ _ = false

-- what is open, the last opened first; `none` once something was closed that was not the last opened
abbrev pub Open : Type 0
Open = Option (List Handle)

abbrev pub push : Handle → Open → Open
push h none = none
push h (some hs) = some (h ∷ hs)

abbrev pub pop : Handle → Open → Open
pop h none = none
pop h (some []) = none
pop h (some (g ∷ hs)) = if same h g then some hs else none

-- what is open after Dial has returned `r`
abbrev pub dialled : Result (Unit {0}) → List Handle → List Handle
dialled (ok _) hs = connection ∷ hs
dialled (err _) hs = hs

-- `hs` is open, whatever the value is.
abbrev pub Exactly : {A : Type 0} → List Handle → A → List Handle → Type 0
Exactly hs _ now = now ≡ hs

module _ {W : Type 0} where
  abbrev pub opening : Handle → M W (Unit {0}) → M (W × Open) (Unit {0})
  opening h m (w, s) =
      let (r, w') = m w in elim r [ ok _ ↦ (ok tt, (w', push h s)) | err e ↦ (err e, (w', s)) ]

  -- config.New opens its source whatever Load says.
  abbrev pub opening_always : Handle → M W (Unit {0}) → M (W × Open) (Unit {0})
  opening_always h m (w, s) = let (r, w') = m w in (r, (w', push h s))

  abbrev pub closing : Handle → M W (Unit {0}) → M (W × Open) (Unit {0})
  closing h m (w, s) = let (r, w') = m w in (r, (w', pop h s))

  abbrev pub passing : {A : Type 0} → M W A → M (W × Open) A
  passing m (w, s) = let (r, w') = m w in (r, (w', s))

  abbrev pub recording : Libraries W → Libraries (W × Open)
  recording lib = record {
    getenv = lib.getenv;
    join_path = lib.join_path;
    open_database = λ source. opening database (lib.open_database source);
    sql_db = passing lib.sql_db;
    close_database = closing database lib.close_database;
    build_config = λ path. passing (lib.build_config path);
    new_for_config = passing lib.new_for_config;
    dial = λ url. opening connection (lib.dial url);
    open_test_channel = opening test_channel lib.open_test_channel;
    close_test_channel = closing test_channel lib.close_test_channel;
    close_connection = closing connection lib.close_connection;
  }

  abbrev pub recording_kratos : Kratos W → Kratos (W × Open)
  recording_kratos kratos = record {
    load = λ path. opening_always config_source (kratos.load path);
    scan = passing kratos.scan;
    close = closing config_source kratos.close;
    run = λ app. passing (kratos.run app);
  }

  -- where `m` is left: with a value beside what is open then, or with an error and `after_error` open
  abbrev pub Left :
      {A : Type 0} → List Handle → (A → List Handle → Type 0) → Result A × (W × Open) → Type 0
  Left after_error Q (ok a, (w, s)) = (hs : List Handle) × (s ≡ some hs) × Q a hs
  Left after_error Q (err e, (w, s)) = s ≡ some after_error

  abbrev pub Ends :
      {A : Type 0}
      → List Handle
      → M (W × Open) A
      → List Handle
      → (A → List Handle → Type 0)
      → Type 0
  Ends before m after_error Q = (w : W) → Left after_error Q (m (w, some before))

  -- a call after which only `after` is open, whether it succeeds or not
  abbrev pub Closes : {A : Type 0} → List Handle → M (W × Open) A → List Handle → Type 0
  Closes before m after = (w : W) → (m (w, some before)).1.1 ≡ some after

  module _ {A : Type 0} (before after_error : List Handle) (Q : A → List Handle → Type 0) where
    module _ {B : Type 0} (R : B → List Handle → Type 0) where
      pub bind-Left :
          (f : A → M (W × Open) B) (x : W × Open) (p : Result A × (W × Open))
          → ((a : A) (hs : List Handle) → Q a hs → Ends hs (f a) after_error R)
          → Left after_error Q p
          → Left after_error R (((λ (v : W × Open). p) >>= f) x)
      bind-Left f x (ok a, (v, s)) next (hs, e, q) = rw e (next a hs q v)
      bind-Left f x (err e, (v, s)) next h = h

      pub bind-Ends :
          (m : M (W × Open) A) (f : A → M (W × Open) B)
          → Ends before m after_error Q
          → ((a : A) (hs : List Handle) → Q a hs → Ends hs (f a) after_error R)
          → Ends before (m >>= f) after_error R
      bind-Ends m f first next w = bind-Left f (w, some before) (m (w, some before)) next (first w)

    module _ {B : Type 0} where
      pub bind_closed :
          (f : A → M (W × Open) B) (x : W × Open) (p : Result A × (W × Open))
          → ((a : A) (hs : List Handle) → Q a hs → Closes hs (f a) after_error)
          → Left after_error Q p
          → (((λ (v : W × Open). p) >>= f) x).1.1 ≡ some after_error
      bind_closed f x (ok a, (v, s)) next (hs, e, q) = rw e (next a hs q v)
      bind_closed f x (err e, (v, s)) next h = h

      pub bind-Closes :
          (m : M (W × Open) A) (f : A → M (W × Open) B)
          → Ends before m after_error Q
          → ((a : A) (hs : List Handle) → Q a hs → Closes hs (f a) after_error)
          → Closes before (m >>= f) after_error
      bind-Closes m f first next w =
          bind_closed f (w, some before) (m (w, some before)) next (first w)

    module _ (cleanup : M (W × Open) (Unit {0})) (cleans : Closes before cleanup after_error) where
      pub cleaned_up :
          (x : W × Open) (p : Result A × (W × Open))
          → Left before Q p
          → Left after_error Q (or_clean_up cleanup (λ (v : W × Open). p) x)
      cleaned_up x (ok a, (v, s)) h = h
      cleaned_up x (err e, (v, s)) h = rw h (cleans v)

      pub or_clean_up-Ends :
          (m : M (W × Open) A)
          → Ends before m before Q
          → Ends before (or_clean_up cleanup m) after_error Q
      or_clean_up-Ends m ends w = cleaned_up (w, some before) (m (w, some before)) (ends w)

  pub deferred-Closes :
      {A : Type 0} (before between after : List Handle) (cleanup : M (W × Open) (Unit {0}))
      (m : M (W × Open) A)
      → Closes between cleanup after
      → Closes before m between
      → Closes before (deferred cleanup m) after
  deferred-Closes before between after cleanup m cleans closes w =
      rw (closes w) (cleans (m (w, some before)).1.0)

  pub after-Closes :
      (before between after : List Handle) (m k : M (W × Open) (Unit {0}))
      → Closes before m between
      → Closes between k after
      → Closes before (ignore m >> k) after
  after-Closes before between after m k first next w = rw (first w) (next (m (w, some before)).1.0)

  pub opening-Ends :
      (h : Handle) (hs : List Handle) (m : M W (Unit {0}))
      → Ends hs (opening h m) hs (Exactly (h ∷ hs))
  opening-Ends h hs m w = go (m w)
    where
      go :
          (p : Result (Unit {0}) × W)
          → Left hs (Exactly (h ∷ hs)) (opening h (λ (v : W). p) (w, some hs))
      go (ok _, v) = (h ∷ hs, refl, refl)
      go (err e, v) = refl

  pub passing-Ends :
      {A : Type 0} (hs : List Handle) (m : M W A) → Ends hs (passing m) hs (Exactly hs)
  passing-Ends {A} hs m w = go (m w)
    where
      go : (p : Result A × W) → Left hs (Exactly hs) (passing (λ (v : W). p) (w, some hs))
      go (ok a, v) = (hs, refl, refl)
      go (err e, v) = refl

  pub of_result-Ends :
      {A : Type 0} (hs : List Handle) (r : Result A)
      → Ends hs (of_result {W = W × Open} r) hs (Exactly hs)
  of_result-Ends hs (ok a) w = (hs, refl, refl)
  of_result-Ends hs (err e) w = refl

  pub if-Ends :
      {A : Type 0} (hs after_error : List Handle) (Q : A → List Handle → Type 0) (b : Bool)
      (m k : M (W × Open) A)
      → Ends hs m after_error Q
      → Ends hs k after_error Q
      → Ends hs (if b then m else k) after_error Q
  if-Ends hs after_error Q true m k p q = p
  if-Ends hs after_error Q false m k p q = q

  -- the cleanup that is returned leaves `hs` open
  abbrev pub CleansUp : List Handle → M (W × Open) (Unit {0}) → List Handle → Type 0
  CleansUp hs cleanup now = Closes now cleanup hs

  abbrev pub CleansBeside :
      {A : Type 0} → List Handle → A × M (W × Open) (Unit {0}) → List Handle → Type 0
  CleansBeside hs (_, cleanup) now = Closes now cleanup hs
