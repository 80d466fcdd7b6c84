-- ===== src/Publish/Defaults.antt =====
-- Where the published files stand: `DefaultPath` of internal/hosts/hosts.go, `DefaultPaths` and `quotePath` of
-- internal/sshconfig/sshconfig.go. `filepath` and `strconv.Quote` are parameters.
use lan_nickname.Base.{
  false, List, [], ◌∷◌, ◌≡◌, refl, sym, ap, subst, Bytes, codes, equal, ne_of_equal, if◌then◌else◌,
}
use lan_nickname.Config.State.{System}
use lan_nickname.Publish.{Targets, AreSeparate}
use lan_nickname.Ssh.Write.{temporary_of}
use lan_nickname.Ssh.{Paths, no_paths}

-- `filepath.Join`, `filepath.Dir`, `filepath.ToSlash` and `strconv.Quote`.
pub record Filepath : Type 0 where
  pub join : List Bytes → Bytes
  pub dir_of : Bytes → Bytes
  pub to_slash : Bytes → Bytes
  pub quote : Bytes → Bytes

abbrev or_default : Bytes → Bytes → Bytes
or_default [] default = default
or_default (c ∷ s) default = c ∷ s

module _ (S : System) (F : Filepath) where
  unfoldable pub default_path : Bytes
  default_path =
      if S.windows
      then F.join (
          or_default (S.getenv (codes "SystemRoot")) (codes "C:\\Windows")
          ∷ codes "System32"
          ∷ codes "drivers"
          ∷ codes "etc"
          ∷ codes "hosts"
          ∷ [])
      else codes "/etc/hosts"

  abbrev ssh_root : Bytes
  ssh_root =
      F.join
        (or_default (S.getenv (codes "ProgramData")) (codes "C:\\ProgramData") ∷ codes "ssh" ∷ [])

  unfoldable pub default_paths : Paths
  default_paths =
      if S.windows
      then record {
        config = F.join (ssh_root ∷ codes "ssh_config" ∷ []);
        known_hosts = F.join (ssh_root ∷ codes "ssh_known_hosts" ∷ []);
        null_device = codes "NUL";
      }
      else record {
        config = codes "/etc/ssh/ssh_config.d/90-lan-nick.conf";
        known_hosts = codes "/etc/ssh/ssh_known_hosts";
        null_device = codes "/dev/null";
      }

  -- The temporary file of `Sync` of internal/hosts/hosts.go.
  abbrev pub hosts_temporary : Bytes → Bytes
  hosts_temporary path = F.join (F.dir_of path ∷ codes ".lan-nick-hosts.tmp" ∷ [])

  unfoldable pub default_targets : Targets
  unfolding default_path default_paths
  default_targets = record {
    temporary = hosts_temporary default_path;
    hosts = default_path;
    paths = default_paths;
  }

unfoldable pub quote_path : Filepath → Bytes → Bytes
quote_path F path = F.quote (F.to_slash path)

abbrev on_unix : Bytes → Targets
on_unix temporary = record {
  temporary = temporary;
  hosts = codes "/etc/hosts";
  paths = record {
    config = codes "/etc/ssh/ssh_config.d/90-lan-nick.conf";
    known_hosts = codes "/etc/ssh/ssh_known_hosts";
    null_device = codes "/dev/null";
  };
}

unix-AreSeparate : AreSeparate (on_unix (codes "/etc/.lan-nick-hosts.tmp"))
unfolding equal
unix-AreSeparate = record {
  hosts_temporary = ne_of_equal (codes "/etc/hosts") (codes "/etc/.lan-nick-hosts.tmp") refl;
  hosts_keys = ne_of_equal (codes "/etc/hosts") (codes "/etc/ssh/ssh_known_hosts") refl;
  hosts_keys_temporary =
      ne_of_equal (codes "/etc/hosts") (temporary_of (codes "/etc/ssh/ssh_known_hosts")) refl;
  hosts_config =
      ne_of_equal (codes "/etc/hosts") (codes "/etc/ssh/ssh_config.d/90-lan-nick.conf") refl;
  hosts_config_temporary =
      ne_of_equal (codes "/etc/hosts")
        (temporary_of (codes "/etc/ssh/ssh_config.d/90-lan-nick.conf")) refl;
  keys_temporary =
      ne_of_equal (codes "/etc/ssh/ssh_known_hosts") (codes "/etc/.lan-nick-hosts.tmp") refl;
  config_temporary =
      ne_of_equal (codes "/etc/ssh/ssh_config.d/90-lan-nick.conf")
        (codes "/etc/.lan-nick-hosts.tmp") refl;
  ssh = record {
    files =
        ne_of_equal (codes "/etc/ssh/ssh_known_hosts")
          (codes "/etc/ssh/ssh_config.d/90-lan-nick.conf") refl;
    from_keys =
        ne_of_equal (codes "/etc/ssh/ssh_config.d/90-lan-nick.conf")
          (temporary_of (codes "/etc/ssh/ssh_known_hosts")) refl;
    from_config =
        ne_of_equal (codes "/etc/ssh/ssh_known_hosts")
          (temporary_of (codes "/etc/ssh/ssh_config.d/90-lan-nick.conf")) refl;
  };
}

unix_targets :
    (S : System) (F : Filepath)
    → S.windows ≡ false
    → hosts_temporary S F (codes "/etc/hosts") ≡ codes "/etc/.lan-nick-hosts.tmp"
    → default_targets S F ≡ on_unix (codes "/etc/.lan-nick-hosts.tmp")
unfolding default_targets default_path default_paths
unix_targets S F unix beside = rw (unix, beside) refl

-- On Unix all default paths are given, and they and the temporaries beside them are different, if
-- `filepath.Join` and `filepath.Dir` put the temporary file beside the hosts file.
pub default_targets-AreSeparate :
    (S : System) (F : Filepath)
    → S.windows ≡ false
    → hosts_temporary S F (codes "/etc/hosts") ≡ codes "/etc/.lan-nick-hosts.tmp"
    → (no_paths (default_targets S F).paths ≡ false) × AreSeparate (default_targets S F)
default_targets-AreSeparate S F unix beside =
    let there = unix_targets S F unix beside in
    (ap (λ (T : Targets). no_paths T.paths) there, subst AreSeparate (sym there) unix-AreSeparate)
