-- ===== src/Service/Linux.antt =====
-- internal/service/service_linux.go: the service under systemd.
pub mod Outcome
pub mod Removal
use lan_nickname.Base.{
  Bool, true, false, not, List, [], ◌∷◌, Result, ok, err, refuse, Bytes, codes, if◌then◌else◌,
}
use lan_nickname.Config.State.{System}
use lan_nickname.Files.{
  World, Io, pure, ◌>>=◌, ◌>>◌, from_result, call, asking, running, remove_file,
}
use lan_nickname.Service.{
  Error, not_root, no_manager, remove_failed, command_failed, Platform, validate_install_inputs,
  state_owner, StateOwner, exists_file, write_definition, ◌also◌,
}
use lan_nickname.Service.Copy.{install_executable}
use lan_nickname.Service.Render.{render_systemd}

abbrev pub linux_executable : Bytes
linux_executable = codes "/usr/local/libexec/lan-nick"

abbrev pub systemd_unit : Bytes
systemd_unit = codes "/etc/systemd/system/lan-nick.service"

unfoldable pub systemctl : List Bytes → Io Error (Unit {0})
unfolding call
systemctl arguments =
    call (running (codes "systemctl" ∷ arguments)) (command_failed (codes "systemctl" ∷ arguments))

abbrev pub service : Bytes
service = codes "lan-nick.service"

-- `os.Geteuid() != 0`, and `exec.LookPath("systemctl")`.
unfoldable pub require : Bool → Io Error (Unit {0})
unfolding call
require root =
    from_result (refuse (not root) not_root) >> call (asking (codes "systemctl")) no_manager

-- A command where the unit is installed already.
unfoldable pub if_installed : Io Error (Unit {0}) → Io Error (Unit {0})
unfolding exists_file
if_installed command = do
  installed ← exists_file systemd_unit
  if installed then command else pure tt

module _ (P : Platform) (S : System) (root : Bool) (source state_dir : Bytes) where
  -- From the owner on.
  unfoldable pub install_for : StateOwner → Io Error (Unit {0})
  unfolding if_installed systemctl install_executable write_definition render_systemd
  install_for owner = do
    if_installed (systemctl (codes "stop" ∷ service ∷ []))
    install_executable P source linux_executable
    write_definition P systemd_unit (render_systemd P linux_executable state_dir owner)
    systemctl (codes "daemon-reload" ∷ [])
    systemctl (codes "enable" ∷ codes "--now" ∷ service ∷ [])

  unfoldable pub install : Io Error (Unit {0})
  unfolding require validate_install_inputs state_owner install_for
  install = do
    require root
    from_result (validate_install_inputs P source state_dir)
    owner ← from_result (state_owner S)
    install_for owner

-- All steps are done whatever becomes of the others, and the first error is reported.
unfoldable pub uninstall : Bool → Io Error (Unit {0})
unfolding require if_installed systemctl remove_file
uninstall root = do
  require root
  if_installed (systemctl (codes "disable" ∷ codes "--now" ∷ service ∷ []))
      also remove_file systemd_unit remove_failed
      also remove_file linux_executable remove_failed
      also systemctl (codes "daemon-reload" ∷ [])
