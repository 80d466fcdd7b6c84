-- ===== src/Service/Darwin.antt =====
-- internal/service/service_darwin.go: the service under launchd.
use lan_nickname.Base.{
  Bool, not, List, [], ◌∷◌, ◌++◌, ◌||◌, Option, none, some, Result, ok, err, refuse, Bytes, codes,
  if◌then◌else◌,
}
use lan_nickname.Config.State.{System}
use lan_nickname.Files.{
  Answer, works, fails, Io, ◌>>=◌, ◌>>◌, from_result, ignore, call, running, remove_file,
  first_answer, noted,
}
use lan_nickname.Service.{
  Error, not_root, remove_failed, command_failed, Platform, validate_install_inputs, state_owner,
  StateOwner, write_definition, ◌also◌,
}
use lan_nickname.Service.Copy.{install_executable}
use lan_nickname.Service.Render.{render_launchd, launchd_label}
use lan_nickname.Text.Search.{contains}
use lan_nickname.Text.Unicode.{trim_space}

abbrev pub darwin_executable : Bytes
darwin_executable = codes "/Library/PrivilegedHelperTools/lan-nick"

abbrev pub launchd_plist : Bytes
launchd_plist = codes "/Library/LaunchDaemons/dev.lan-nick.agent.plist"

abbrev pub target : Bytes
target = codes "system/" ++ launchd_label

-- What a failed `launchctl bootout` prints where the service was not there.
unfoldable pub is_unknown : Bytes → Bool
unfolding contains
is_unknown message =
    contains message (codes "Could not find service") || contains message (codes "No such process")

abbrev pub bootout_command : List Bytes
bootout_command = codes "/bin/launchctl" ∷ codes "bootout" ∷ target ∷ []

abbrev pub printed : Option Bytes → Bytes
printed none = []
printed (some s) = s

-- Here the bytes of a failure are what the command prints.
unfoldable pub booted_out : Answer → Result Error (Unit {0})
unfolding is_unknown trim_space
booted_out works = ok tt
booted_out (fails output) =
    if is_unknown (trim_space (printed output)) then ok tt else err (command_failed bootout_command)

unfoldable pub bootout_launchd : Io Error (Unit {0})
unfolding booted_out
bootout_launchd w = (booted_out (first_answer w.answers), noted (running bootout_command) w)

unfoldable pub launchctl : List Bytes → Io Error (Unit {0})
unfolding call
launchctl arguments =
    call (running (codes "/bin/launchctl" ∷ arguments))
      (command_failed (codes "/bin/launchctl" ∷ arguments))

unfoldable pub install_for : Platform → Bytes → Bytes → StateOwner → Io Error (Unit {0})
unfolding bootout_launchd install_executable write_definition render_launchd launchctl
install_for P source state_dir owner = do
  bootout_launchd
  install_executable P source darwin_executable
  write_definition P launchd_plist (render_launchd darwin_executable state_dir owner)
  ignore (launchctl (codes "enable" ∷ target ∷ []))
  launchctl (codes "bootstrap" ∷ codes "system" ∷ launchd_plist ∷ [])

unfoldable pub install : Platform → System → Bool → Bytes → Bytes → Io Error (Unit {0})
unfolding validate_install_inputs state_owner install_for
install P S root source state_dir = do
  from_result (refuse (not root) not_root)
  from_result (validate_install_inputs P source state_dir)
  owner ← from_result (state_owner S)
  install_for P source state_dir owner

unfoldable pub uninstall : Bool → Io Error (Unit {0})
unfolding bootout_launchd remove_file
uninstall root = do
  from_result (refuse (not root) not_root)
  bootout_launchd
      also remove_file launchd_plist remove_failed
      also remove_file darwin_executable remove_failed
