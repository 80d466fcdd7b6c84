-- ===== src/Service/Windows.antt =====
-- internal/service/service_windows.go: the waits for the service manager, and the control handler of the
-- service, `Execute`. The service manager's answers and the clock are given as lists of what is seen.
pub mod Waiting
pub mod Handler
pub mod Install
pub mod Start
use lan_nickname.Base.{
  ℕ, ◌+◌, ◌*◌, ◌<◌, Bool, true, false, not, List, [], ◌∷◌, Option, none, some, Result, ok, err, ltb,
  if◌then◌else◌, Bytes,
}

abbrev pub milliseconds : ℕ
milliseconds = 1_000_000

pub data WaitError : Type 0 where
  timeout query_failed open_failed stop_failed delete_failed : WaitError

-- One round of the wait for the service to stop: the clock, then what `Query` gives after the pause; the
-- flag says whether the service has stopped, and nothing that the query failed.
pub record Poll : Type 0 where
  pub now : ℕ
  pub seen : Option Bool

abbrev pub queried :
    Option Bool
    → (Bool → Option (Result WaitError (Unit {0})))
    → Option (Result WaitError (Unit {0}))
queried none next = some (err query_failed)
queried (some stopped) next = next stopped

-- The loop of `stopWindowsService`, from the deadline and whether the service had stopped when last seen.
-- Nothing is returned while more is to be seen.
unfoldable pub await_stop : ℕ → Bool → List Poll → Option (Result WaitError (Unit {0}))
await_stop deadline true polls = some (ok tt)
await_stop deadline false [] = none
await_stop deadline false (p ∷ polls) =
    let rest = queried p.seen (λ stopped. await_stop deadline stopped polls) in
    if ltb deadline p.now then some (err timeout) else rest

-- What `Control(svc.Stop)` gives.
pub data Control : Type 0 where
  not_active refused : Control
  accepted : Bool → Control

-- `stopWindowsService`, from the first query, the control and the clock behind it.
unfoldable pub stop_service :
    Option Bool → Control → ℕ → List Poll → Option (Result WaitError (Unit {0}))
unfolding await_stop
stop_service none control now polls = some (err query_failed)
stop_service (some true) control now polls = some (ok tt)
stop_service (some false) not_active now polls = some (ok tt)
stop_service (some false) refused now polls = some (err stop_failed)
stop_service (some false) (accepted stopped) now polls =
    await_stop (now + 20_000 * milliseconds) stopped polls

-- One round of the wait for the deletion: the clock, and whether `OpenService` no longer finds the service.
pub record Look : Type 0 where
  pub now : ℕ
  pub gone : Bool

-- The last loop of `removeWindowsService`.
unfoldable pub await_deletion : ℕ → List Look → Option (Result WaitError (Unit {0}))
await_deletion deadline [] = none
await_deletion deadline (l ∷ looks) =
    let rest = await_deletion deadline looks in
    if ltb l.now deadline then (if l.gone then some (ok tt) else rest) else some (err timeout)

-- What the first `OpenService` gives.
pub data Opening : Type 0 where
  no_service not_opened opened : Opening

abbrev pub then_delete :
    Bool
    → ℕ
    → List Look
    → Option (Result WaitError (Unit {0}))
    → Option (Result WaitError (Unit {0}))
then_delete deleted now looks none = none
then_delete deleted now looks (some (err e)) = some (err e)
then_delete deleted now looks (some (ok _)) =
    if deleted then await_deletion (now + 10_000 * milliseconds) looks else some (err delete_failed)

-- `removeWindowsService`, from the opening, the stopping, whether `Delete` succeeds, the clock behind it and
-- the looks at the manager.
unfoldable pub remove_service :
    Opening
    → Option (Result WaitError (Unit {0}))
    → Bool
    → ℕ
    → List Look
    → Option (Result WaitError (Unit {0}))
unfolding await_deletion
remove_service no_service stopping deleted now looks = some (ok tt)
remove_service not_opened stopping deleted now looks = some (err open_failed)
remove_service opened stopping deleted now looks = then_delete deleted now looks stopping
