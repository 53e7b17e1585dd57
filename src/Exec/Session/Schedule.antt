-- ===== src/Exec/Session/Schedule.antt =====
-- Schedules: the moves of a session (internal/service/resource.go, internal/data/exec.go) as a list.
use run_all_resource.Prelude.{◌≡◌, refl, List, [], ◌∷◌}
use run_all_resource.Go.{Texts}
use run_all_resource.Go.Channel.{Turn, moved, blocked, panicked}
use run_all_resource.Exec.Session.{Session, Action, act, Reach, here, later}

module _ (texts : Texts) where
  abbrev and_then : Turn Session → (Session → Turn Session) → Turn Session
  and_then (moved s) f = f s
  and_then blocked f = blocked
  and_then panicked f = panicked

  and_then-moved :
      (r : Turn Session) (f : Session → Turn Session) (t : Session)
      → and_then r f ≡ moved t
      → (u : Session) × (r ≡ moved u) × (f u ≡ moved t)
  and_then-moved (moved u) f t h = (u, refl, h)
  and_then-moved blocked f t h = cc
  and_then-moved panicked f t h = cc

  unfoldable pub run : List Action → Session → Turn Session
  unfolding act
  run [] s = moved s
  run (a ∷ schedule) s = and_then (act texts a s) (run schedule)

  pub Reach-trans : {s t u : Session} → Reach texts s t → Reach texts t u → Reach texts s u
  Reach-trans r here = r
  Reach-trans r (later q a e) = later (Reach-trans r q) a e

  pub run-Reach :
      (schedule : List Action) (s t : Session) → run schedule s ≡ moved t → Reach texts s t
  unfolding run
  run-Reach [] s t h = rw (moved_is h) here
    where
      moved_is : moved s ≡ moved t → t ≡ s
      moved_is e = cc
  run-Reach (a ∷ schedule) s t h =
      let (u, e, k) = and_then-moved (act texts a s) (run schedule) t h in
      Reach-trans (later here a e) (run-Reach schedule u t k)
