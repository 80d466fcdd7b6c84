-- ===== src/Service/Windows/Waiting.antt =====
-- The waits come to an end.
use lan_nickname.Base.{
  ℕ, suc, ◌+◌, ◌*◌, ◌≤◌, ◌<◌, Bool, true, false, List, [], ◌∷◌, ◌≡◌, refl, inl, inr, Bool-cases,
  Option, none, some, Option-cases, Result, ok, err, ltb, length, arith, map, le_of_not_ltb,
  lt_of_ltb,
}
use lan_nickname.Service.Windows.{
  milliseconds, Poll, Look, WaitError, await_stop, await_deletion, stop_service, remove_service,
  Control, not_active, refused, accepted, Opening, no_service, not_opened, opened, timeout,
  query_failed, open_failed, stop_failed, delete_failed,
}

-- Each round begins a pause later than the one in front.
abbrev pub Paused : ℕ → ℕ → List ℕ → Type 0
Paused pause from [] = Unit
Paused pause from (now ∷ clock) = (from ≤ now) × Paused pause (now + pause) clock

more_rounds : (n pause : ℕ) → suc n * pause ≡ pause + n * pause
more_rounds n pause = grind arith

module _ (pause deadline : ℕ) where
  -- A wait returns once more rounds are seen than pauses fit before its deadline.
  await_stop-ends :
      (from : ℕ) (stopped : Bool) (polls : List Poll)
      → Paused pause from (map (λ p. p.now) polls)
      → from ≤ deadline + pause
      → deadline + pause < from + length polls * pause
      → (r : Result WaitError (Unit {0})) × (await_stop deadline stopped polls ≡ some r)
  unfolding await_stop
  await_stop-ends from true polls h near enough = (ok tt, refl)
  await_stop-ends from false [] h near enough = absurd (omega arith)
  await_stop-ends from false (p ∷ polls) (later, h) near enough =
      elim (Bool-cases (ltb deadline p.now)) [
        | inl over ↦ (err timeout, rw over refl)
        | inr early ↦ elim (Option-cases p.seen) [
          | inl unseen ↦ (err query_failed, rw (early, unseen) refl)
          | inr (stopped, e) ↦
              let now_early = le_of_not_ltb deadline p.now early in
              let rounds = more_rounds (length polls) pause in
              let (r, ends) =
                await_stop-ends (p.now + pause) stopped polls h (omega arith) (omega arith) in
              (r, rw (early, e) ends)
        ]
      ]

  await_deletion-ends :
      (from : ℕ) (looks : List Look)
      → Paused pause from (map (λ l. l.now) looks)
      → from < deadline + pause
      → deadline + pause ≤ from + length looks * pause
      → (r : Result WaitError (Unit {0})) × (await_deletion deadline looks ≡ some r)
  unfolding await_deletion
  await_deletion-ends from [] h near enough = absurd (omega arith)
  await_deletion-ends from (l ∷ looks) (later, h) near enough =
      elim (Bool-cases (ltb l.now deadline)) [
        | inr over ↦ (err timeout, rw over refl)
        | inl early ↦ elim (Bool-cases l.gone) [
          | inl gone ↦ (ok tt, rw (early, gone) refl)
          | inr there ↦
              let now_early = lt_of_ltb l.now deadline early in
              let rounds = more_rounds (length looks) pause in
              let (r, ends) =
                await_deletion-ends (l.now + pause) looks h (omega arith) (omega arith) in
              (r, rw (early, there) ends)
        ]
      ]

-- The wait for the service to stop ends within 82 rounds, whatever the queries give, if the clock does not
-- go back and each pause takes its 250 milliseconds: the result is known then.
pub stop_service-ends :
    (query : Option Bool) (control : Control) (now : ℕ) (polls : List Poll)
    → Paused (250 * milliseconds) now (map (λ p. p.now) polls)
    → 82 ≤ length polls
    → (r : Result WaitError (Unit {0})) × (stop_service query control now polls ≡ some r)
unfolding stop_service
stop_service-ends none control now polls h enough = (err query_failed, refl)
stop_service-ends (some true) control now polls h enough = (ok tt, refl)
stop_service-ends (some false) not_active now polls h enough = (ok tt, refl)
stop_service-ends (some false) refused now polls h enough = (err stop_failed, refl)
stop_service-ends (some false) (accepted stopped) now polls h enough =
    await_stop-ends (250 * milliseconds) (now + 20_000 * milliseconds) now stopped polls h
      (omega arith) (omega arith)

-- The removal of the service ends within 51 looks at the manager behind a stopping that has ended, if the
-- clock does not go back and each pause takes its 200 milliseconds.
pub remove_service-ends :
    (opening : Opening) (stopped : Result WaitError (Unit {0})) (deleted : Bool) (now : ℕ)
    (looks : List Look)
    → Paused (200 * milliseconds) now (map (λ l. l.now) looks)
    → 51 ≤ length looks
    → (r : Result WaitError (Unit {0})) × (remove_service opening (some stopped) deleted now looks
        ≡ some r)
unfolding remove_service
remove_service-ends no_service stopped deleted now looks h enough = (ok tt, refl)
remove_service-ends not_opened stopped deleted now looks h enough = (err open_failed, refl)
remove_service-ends opened (err e) deleted now looks h enough = (err e, refl)
remove_service-ends opened (ok _) false now looks h enough = (err delete_failed, refl)
remove_service-ends opened (ok _) true now looks h enough =
    await_deletion-ends (200 * milliseconds) (now + 10_000 * milliseconds) now looks h (omega arith)
      (omega arith)
