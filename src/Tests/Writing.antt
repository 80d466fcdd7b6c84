-- ===== src/Tests/Writing.antt =====
-- Files that are replaced while the system fails, and the settings that are kept.
use lan_nickname.Base.{
  false, [], ◌∷◌, ◌≡◌, refl, ◌≢◌, none, some, err, Bytes, codes, equal, ne_of_equal, if◌then◌else◌,
}
use lan_nickname.Base.Dict.{lookup}
use lan_nickname.Config.Load.{Place}
use lan_nickname.Config.State
use lan_nickname.Config.State.{System, save_state, save_state-Updates}
use lan_nickname.Files.{World, works, fails}
use lan_nickname.Files.Replace.{Updates}
use lan_nickname.Hosts.Sync.{replace_failed, sync, sync-Updates, Rendered}
use lan_nickname.Ssh.{Paths}
use lan_nickname.Ssh.Write.{temporary_of, sync_files}
use lan_nickname.Ssh.Write.Both.{AreApart, Synced, sync_files-Synced}
use lan_nickname.Tests.Values.{net, one_peer, plain_byte}

abbrev pub hosts : Bytes
hosts = codes "/etc/hosts"

abbrev pub temporary : Bytes
temporary = codes "/etc/.lan-nick-hosts.tmp"

-- The renaming fails.
abbrev failing : World
failing = record {
  files = (hosts, codes "127.0.0.1 localhost\n") ∷ [];
  answers = works ∷ works ∷ works ∷ fails none ∷ [];
  calls = [];
}

failed_replacement :
    ((sync net temporary hosts one_peer failing).0 ≡ err replace_failed)
    × (lookup hosts (sync net temporary hosts one_peer failing).1.files
        ≡ some (codes "127.0.0.1 localhost\n"))
    × (lookup temporary (sync net temporary hosts one_peer failing).1.files ≡ none)
unfolding sync lookup plain_byte
failed_replacement = (refl, refl, refl)

sync-Updates_example :
    Updates temporary hosts
      (Rendered net one_peer (codes "127.0.0.1 localhost\n"))
      failing.files
      (sync net temporary hosts one_peer failing)
unfolding lookup equal
sync-Updates_example =
    sync-Updates net temporary hosts one_peer failing (ne_of_equal hosts temporary refl)

abbrev pub paths : Paths
paths = record {
  config = codes "/etc/ssh/ssh_config";
  known_hosts = codes "/etc/ssh/lan-nick";
  null_device = codes "/dev/null";
}

-- The second file cannot be read.
abbrev unreadable : World
unreadable = record {
  files = (paths.config, codes "Host nas\n") ∷ [];
  answers = works ∷ works ∷ works ∷ works ∷ works ∷ fails none ∷ [];
  calls = [];
}

first_only :
    (lookup paths.config (sync_files (λ s. s) paths one_peer unreadable).1.files
      ≡ some (codes "Host nas\n"))
    × (lookup paths.known_hosts (sync_files (λ s. s) paths one_peer unreadable).1.files ≢ none)
unfolding sync_files lookup
first_only = (refl, λ e. cc)

pub paths_apart : AreApart paths
unfolding equal
paths_apart = record {
  files = ne_of_equal paths.known_hosts paths.config refl;
  from_keys = ne_of_equal paths.config (temporary_of paths.known_hosts) refl;
  from_config = ne_of_equal paths.known_hosts (temporary_of paths.config) refl;
}

sync_files-Synced_example :
    Synced (λ s. s) paths one_peer unreadable.files (sync_files (λ s. s) paths one_peer unreadable)
sync_files-Synced_example = sync_files-Synced (λ s. s) paths one_peer unreadable refl paths_apart

-- An ordinary user's environment, and one behind `sudo`.
abbrev pub system : System
system = record {
  windows = false;
  getenv = λ name.
      if equal name (codes "SUDO_UID")
      then codes "1000"
      else if equal name (codes "SUDO_GID")
      then codes "100"
      else [];
}

abbrev pub place : Place
place = record { dir = codes "/home/a"; path = codes "/home/a/config.json" }

-- The change of the owner of the temporary fails.
abbrev unowned : World
unowned = record {
  files = (place.path, codes "old") ∷ [];
  answers = works ∷ works ∷ works ∷ fails none ∷ [];
  calls = [];
}

still_old :
    ((save_state system place.dir place.path (codes "new") unowned).0
      ≡ err (State.not_owned State.chown_failed))
    × (lookup place.path (save_state system place.dir place.path (codes "new") unowned).1.files
        ≡ some (codes "old"))
unfolding save_state lookup equal
still_old = (refl, refl)
