-- ===== src/Service/Windows/Install.antt =====
-- `Install` and `Uninstall` of internal/service/service_windows.go, with the firewall rule. What
-- `removeWindowsService` gives is an argument: it is modelled with the waits. The closing of handles, which
-- has no result, is left out.
pub mod Undone
use lan_nickname.Base.{[], ◌∷◌, ◌++◌, Result, ok, err, Bytes, codes}
use lan_nickname.Files.{
  Call, Io, ◌>>◌, from_result, wrap, call, asking, running, removing, ignore, or_else, remove_file,
}
use lan_nickname.Service
use lan_nickname.Service.{Platform, validate_install_inputs}
use lan_nickname.Service.Copy.{install_executable}
use lan_nickname.Service.Windows.{WaitError}

pub data Error : Type 0 where
  shared : Service.Error → Error
  wait_failed : WaitError → Error
  connect_failed create_failed source_failed firewall_failed start_failed remove_failed : Error

abbrev pub waited : Result WaitError (Unit {0}) → Result Error (Unit {0})
waited (ok _) = ok tt
waited (err e) = err (wait_failed e)

-- The calls of the service manager, of the event log and of `netsh`.
abbrev pub connect : Call
connect = asking (codes "mgr.Connect")

abbrev pub create_service : Call
create_service = asking (codes "CreateService")

abbrev pub delete_service : Call
delete_service = asking (codes "Delete")

abbrev pub start_service : Call
start_service = asking (codes "Start")

abbrev pub register_source : Call
register_source = asking (codes "eventlog.InstallAsEventCreate")

abbrev pub remove_source : Call
remove_source = asking (codes "eventlog.Remove")

abbrev pub rule_name : Bytes
rule_name = codes "name=lan-nick LAN discovery"

abbrev pub add_rule : Bytes → Call
add_rule path = running (
    codes "netsh"
    ∷ codes "advfirewall"
    ∷ codes "firewall"
    ∷ codes "add"
    ∷ codes "rule"
    ∷ rule_name
    ∷ codes "dir=in"
    ∷ codes "action=allow"
    ∷ codes "protocol=UDP"
    ∷ codes "localport=47777"
    ∷ (codes "program=" ++ path)
    ∷ codes "profile=private"
    ∷ codes "enable=yes"
    ∷ [])

abbrev pub delete_rule : Call
delete_rule = running (
    codes "netsh"
    ∷ codes "advfirewall"
    ∷ codes "firewall"
    ∷ codes "delete"
    ∷ codes "rule"
    ∷ rule_name
    ∷ [])

-- A call whose error is dropped.
abbrev pub attempt : Call → Io Error (Unit {0})
attempt c = ignore (call c remove_failed)

unfoldable pub configure_firewall : Bytes → Io Error (Unit {0})
unfolding call
configure_firewall path = do attempt delete_rule; call (add_rule path) firewall_failed

-- `Install` behind the copying: where a step fails, what the steps in front have registered is removed again.
unfoldable pub register : Bytes → Io Error (Unit {0})
unfolding call configure_firewall
register path = do
  call create_service create_failed
  or_else (call register_source source_failed) (attempt delete_service)
  or_else (configure_firewall path) (attempt remove_source >> attempt delete_service)
  or_else (call start_service start_failed)
      (attempt remove_source >> attempt delete_rule >> attempt delete_service)

unfoldable pub install :
    Platform → Result WaitError (Unit {0}) → Bytes → Bytes → Bytes → Io Error (Unit {0})
unfolding validate_install_inputs install_executable call register
install P removal path source state_dir = do
  wrap shared (from_result (validate_install_inputs P source state_dir))
  call connect connect_failed
  from_result (waited removal)
  attempt remove_source
  wrap shared (install_executable P source path)
  register path

unfoldable pub uninstall : Platform → Result WaitError (Unit {0}) → Bytes → Io Error (Unit {0})
unfolding call remove_file
uninstall P removal path = do
  call connect connect_failed
  from_result (waited removal)
  attempt remove_source
  attempt delete_rule
  remove_file path remove_failed
  attempt (removing (P.dir_of path))
