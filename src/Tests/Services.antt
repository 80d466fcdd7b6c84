-- ===== src/Tests/Services.antt =====
-- The installation of the service and its end.
use lan_nickname.Base.{
  ℕ, zero, suc, ◌+◌, ◌*◌, true, false, [], ◌∷◌, ◌++◌, ◌≡◌, ◌≢◌, refl, none, some, Result, ok, err,
  Bytes, codes, equal, ne_of_equal, arith, List, map,
}
use lan_nickname.Base.Dict.{lookup}
use lan_nickname.Config.State.{System, temporary_of}
use lan_nickname.Files.{World, works, fails}
use lan_nickname.Service.{Platform}
use lan_nickname.Service
use lan_nickname.Service.Copy.{install_executable}
use lan_nickname.Service.Linux.{linux_executable, systemd_unit, install, uninstall}
use lan_nickname.Service.Linux.Outcome.{Installed, install-Installed}
use lan_nickname.Service.Linux.Removal.{Removed, uninstall-Removed}
use lan_nickname.Service.Render.{render_systemd}
use lan_nickname.Service.Windows.{Poll, accepted, stop_service, WaitError, milliseconds}
use lan_nickname.Service.Windows.Waiting.{stop_service-ends, Paused}
use lan_nickname.Service.Windows.Handler.{
  Handler, Event, ended, request, interrogate, stop, run, initial, shutdown_timeout,
}
use lan_nickname.Service.Windows.Handler
use lan_nickname.Service.Windows.Handler.Protocol.{Holds, run-Holds, HasReturned, stop-HasReturned}

abbrev platform : Platform
platform = record {
  is_abs = λ _. true;
  same_file = equal;
  is_regular = λ _. true;
  dir_of = λ _. codes "/";
  quote = λ s. codes "\"" ++ (s ++ codes "\"");
}

abbrev system : System
system = record { windows = false; getenv = λ _. [] }

abbrev source : Bytes
source = codes "/tmp/lan-nick"

-- All calls succeed.
abbrev fresh : World
fresh = record { files = (source, codes "program") ∷ []; answers = []; calls = [] }

-- The renaming of the executable fails.
abbrev failing : World
failing = record fresh {
  answers = works ∷ works ∷ works ∷ works ∷ works ∷ works ∷ works ∷ works ∷ fails none ∷ [];
}

not_same : equal source linux_executable ≡ false
unfolding equal
not_same = refl

not_temporary : source ≢ temporary_of linux_executable
unfolding equal
not_temporary = ne_of_equal source (temporary_of linux_executable) refl

installed :
    ((install platform system true source (codes "/var") fresh).0 ≡ ok tt)
    × (lookup linux_executable (install platform system true source (codes "/var") fresh).1.files
        ≡ some (codes "program"))
    × (lookup systemd_unit (install platform system true source (codes "/var") fresh).1.files
        ≡ some (
            render_systemd platform linux_executable
              (codes "/var")
              (record { uid = []; gid = [] })))
unfolding install lookup equal
installed = (refl, refl, refl)

failed_copy :
    ((install_executable platform source linux_executable failing).0 ≡ err Service.replace_failed)
    × (lookup linux_executable (install_executable platform source linux_executable failing).1.files
        ≡ none)
unfolding install_executable lookup equal
failed_copy = (refl, refl)

install-Installed_example :
    Installed platform system source
      (codes "/var")
      fresh.files
      (install platform system true source (codes "/var") fresh)
install-Installed_example =
    install-Installed platform system source (codes "/var") fresh not_same not_temporary

-- The removal of the unit fails.
abbrev stuck : World
stuck = record {
  files = (systemd_unit, codes "unit") ∷ (linux_executable, codes "program") ∷ [];
  answers = works ∷ works ∷ works ∷ fails none ∷ [];
  calls = [];
}

half_removed :
    ((uninstall true stuck).0 ≡ err Service.remove_failed)
    × (lookup linux_executable (uninstall true stuck).1.files ≡ none)
unfolding uninstall lookup equal
half_removed = (refl, refl)

uninstall-Removed_example : Removed (uninstall true stuck)
uninstall-Removed_example = uninstall-Removed stuck refl

-- A service that never stops, seen every quarter of a second.
unfoldable polls_from : ℕ → ℕ → List Poll
polls_from zero now = []
polls_from (suc n) now =
    (record { now = now; seen = some false }) ∷ polls_from n (now + 250 * milliseconds)

polls_from-Paused :
    (n now : ℕ) → Paused (250 * milliseconds) now (map (λ p. p.now) (polls_from n now))
unfolding polls_from
polls_from-Paused zero now = tt
polls_from-Paused (suc n) now = (omega arith, polls_from-Paused n (now + 250 * milliseconds))

stop_service-ends_example :
    (r : Result WaitError (Unit {0})) × (stop_service
        (some false)
        (accepted false)
        0
        (polls_from 82 0)
      ≡ some r)
unfolding polls_from
stop_service-ends_example =
    stop_service-ends (some false) (accepted false) 0 (polls_from 82 0) (polls_from-Paused 82 0)
      (omega arith)

abbrev asked : List Event
asked = request interrogate ∷ request stop ∷ request stop ∷ Handler.timeout ∷ ended none ∷ []

timed_out : (run initial asked).logged ≡ shutdown_timeout ∷ []
unfolding run
timed_out = refl

run-Holds_example : Holds (run initial asked).phase (run initial asked)
run-Holds_example = run-Holds asked

stop-HasReturned_example :
    HasReturned (run initial (request stop ∷ ((request interrogate ∷ []) ++ ended none ∷ []))).phase
stop-HasReturned_example = stop-HasReturned initial (request interrogate ∷ []) (ended none) tt
