-- ===== src/Cli/Commands.antt =====
-- `printMap`, `installBackgroundService` and `serve` of cmd/lan-nick/main.go. Parsing the flags, the service,
-- `os.Executable` and what `fmt` prints of a duration, of a number and of a quoted text are parameters.
use lan_nickname.Agent.{Settings, default_interval, default_ttl, default_port}
use lan_nickname.Base.Duration.{ℤ}
use lan_nickname.Base.{
  ℕ, Bool, not, List, [], ◌∷◌, ◌++◌, Option, none, some, Result, ok, err, refuse, Bytes, codes,
  is_empty, if◌then◌else◌,
}
use lan_nickname.Cli.{print_peer_map}
use lan_nickname.Config.Load.{ConfigJson, LoadError, Place, load_or_create}
use lan_nickname.Config.State.{System}
use lan_nickname.Config.{Config, alias}
use lan_nickname.Files.{Io, pure, ◌>>=◌, ◌>>◌, from_result, wrap}
use lan_nickname.Store.Cache
use lan_nickname.Store.Cache.{SnapshotJson, read_cached}
use lan_nickname.Store.{Peer}
use lan_nickname.Text.Unicode.{Unicode}

abbrev no_machines : Bytes
no_machines = codes "No active lan-nick machines found. Is the lan-nick service running?\n"

-- What `printMap` prints of the peers.
unfoldable pub shown_peers : List Peer → Bytes
unfolding print_peer_map
shown_peers [] = no_machines
shown_peers (p ∷ ps) = print_peer_map (p ∷ ps)

-- `printMap`; ttl is the value of `agent.DefaultTTL`.
unfoldable pub print_map : SnapshotJson → Option Place → ℕ → ℕ → Io Cache.Error Bytes
unfolding read_cached shown_peers
print_map J place ttl now = do
  snapshot ← read_cached J place ttl now
  pure (shown_peers snapshot.peers)

pub data InstallError (E : Type 0) : Type 0 where
  unsettled : LoadError → InstallError E
  no_directory no_executable : InstallError E
  not_installed : E → InstallError E

abbrev pub given_or : {E A : Type 0} → E → Option A → Result E A
given_or e none = err e
given_or e (some a) = ok a

-- The texts of the system: `service.ManagerName` and `service.InstallPath`.
pub record Manager : Type 0 where
  pub name : Bytes
  pub path : Bytes

-- A backslash and an n stand where the format of the source has them.
abbrev pub shown_install : Manager → Bytes → Bytes
shown_install M dir =
    codes "Installed and started lan-nick with "
    ++ (M.name
        ++ (codes ".\\nService executable: "
            ++ (M.path ++ (codes "\\nState directory: " ++ (dir ++ codes "\\n")))))

module _ (J : ConfigJson) (S : System) (place : Option Place) (host random : Option Bytes) where
  -- From the service's installation, what `config.Dir` gives and the path of the program.
  unfoldable pub install_background :
      {E : Type 0}
      → Manager
      → (Bytes → Bytes → Io E (Unit {0}))
      → Option Bytes
      → Option Bytes
      → Io (InstallError E) Bytes
  unfolding load_or_create
  install_background M install dir executable = do
    cfg ← wrap unsettled (load_or_create J S place host random)
    state ← from_result (given_or no_directory dir)
    program ← from_result (given_or no_executable executable)
    wrap not_installed (install program state)
    pure (shown_install M state)

-- The values of the flags of `serve`.
pub record Flags : Type 0 where
  pub interval : ℤ
  pub ttl : ℤ
  pub port : ℤ
  pub hosts_file : Bytes
  pub no_hosts : Bool

abbrev pub default_flags : Flags
default_flags = record {
  interval = default_interval;
  ttl = default_ttl;
  port = default_port;
  hosts_file = [];
  no_hosts = Bool.false;
}

pub data ServeError : Type 0 where
  bad_flags usage : ServeError
  unsettled : LoadError → ServeError

-- `flags.Parse` from the defaults, with the arguments that it leaves, and the printing of `fmt`.
pub record Printer : Type 0 where
  pub parse : Flags → List Bytes → Option (Flags × List Bytes)
  pub quoted : Bytes → Bytes
  pub duration : ℤ → Bytes
  pub number : ℤ → Bytes

-- The options of the agent; those that the source leaves out are empty.
abbrev pub settings_of : Flags → Settings
settings_of f = record {
  port = f.port;
  interval = f.interval;
  ttl = f.ttl;
  hosts_path = f.hosts_file;
  ssh_paths = record { config = []; known_hosts = []; null_device = [] };
  sync_hosts = not f.no_hosts;
}

abbrev pub shown_serve : Unicode → Printer → Flags → Config → Bytes
shown_serve U P f cfg =
    codes "Advertising "
    ++ (P.quoted cfg.nickname
        ++ (codes " as "
            ++ (alias U cfg.nickname
                ++ (codes " every "
                    ++ (P.duration f.interval
                        ++ (codes " on UDP "
                            ++ (P.number f.port
                                ++ (if f.no_hosts
                                    then codes
                                        "\nHost and SSH configuration synchronization is disabled.\n"
                                    else codes
                                        "\nHost and SSH configuration synchronization is enabled; administrator privileges are normally required.\n"))))))))

-- `serve` up to `agent.Run`: what it prints, and the options of the agent.
unfoldable pub serve :
    Unicode
    → Printer
    → ConfigJson
    → System
    → Option Place
    → Option Bytes
    → Option Bytes
    → List Bytes
    → Io ServeError (Bytes × Settings)
unfolding load_or_create alias
serve U P J S place host random arguments = do
  parsed ← from_result (given_or bad_flags (P.parse default_flags arguments))
  from_result (refuse (not (is_empty parsed.1)) usage)
  cfg ← wrap unsettled (load_or_create J S place host random)
  pure (shown_serve U P parsed.0 cfg, settings_of parsed.0)
