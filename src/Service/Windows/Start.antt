-- ===== src/Service/Windows/Start.antt =====
-- `InstallPath` and `Run` of internal/service/service_windows.go, `Write` of its `eventLogWriter`, and `Run` of
-- internal/service/run_unix.go. `svc.Run`, which calls the handler, is a parameter.
use lan_nickname.Base.{
  not, ◌||◌, List, [], ◌∷◌, ◌++◌, Result, ok, err, refuse, Bytes, codes, is_empty, if◌then◌else◌,
}
use lan_nickname.Config.State.{System}
use lan_nickname.Files.{Io, noted, ◌>>◌, from_result, call, asking}
use lan_nickname.Service.{Platform}
use lan_nickname.Text.Unicode.{trim_space}

abbrev or_default : Bytes → Bytes → Bytes
or_default [] default = default
or_default (c ∷ s) default = c ∷ s

unfoldable pub install_path : System → (List Bytes → Bytes) → Bytes
install_path S join = join (
    or_default (S.getenv (codes "ProgramFiles")) (codes "C:\\Program Files")
    ∷ codes "lan-nick"
    ∷ codes "lan-nick.exe"
    ∷ [])

pub data RunError : Type 0 where
  not_absolute environment_failed log_failed no_runner : RunError
  service_failed : RunError

-- A line in the event log, whose error is dropped.
abbrev logged : Bytes → Io RunError (Unit {0})
logged text w = (ok tt, noted (asking text) w)

-- The environment, of which only the state directory is set, is in the calls.
unfoldable pub run_service : Platform → Io RunError (Unit {0}) → Bytes → Io RunError (Unit {0})
unfolding call
run_service P service state_dir = do
  from_result (refuse (is_empty state_dir || not (P.is_abs state_dir)) not_absolute)
  call (asking (codes "Setenv LAN_NICK_STATE_DIR " ++ state_dir)) environment_failed
  call (asking (codes "eventlog.Open")) log_failed
  logged (codes "lan-nick service starting")
  service
  logged (codes "lan-nick service stopped")

-- The warnings that a payload puts into the event log.
unfoldable pub write_warning : Bytes → List Bytes
unfolding trim_space
write_warning payload = if is_empty (trim_space payload) then [] else trim_space payload ∷ []

-- Outside Windows.
unfoldable pub run_refused : Bytes → Result RunError (Unit {0})
run_refused state_dir = err no_runner
