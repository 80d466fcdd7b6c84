-- ===== src/Agent/Open.antt =====
-- `Run` of internal/agent/agent.go from its options on: the loading of the peers and the opening of the socket,
-- the first announcement and the loop.
pub mod Refused
use lan_nickname.Agent
use lan_nickname.Agent.Announce.{Announcer, Local}
use lan_nickname.Agent.Flush.{Log, no_host_key, Setting, Clock}
use lan_nickname.Agent.HostKey
use lan_nickname.Agent.HostKey.{load_host_key}
use lan_nickname.Agent.Machine.{Machine, Input, Outcome, start, next, run}
use lan_nickname.Agent.{Settings, check_settings}
use lan_nickname.Base.{false, ℕ, ◌-◌, List, [], ◌∷◌, Result, ok, err, Bytes, codes, ◌≡◌}
use lan_nickname.Files.{
  World, Io, pure, raise, ◌>>=◌, ◌>>◌, from_result, wrap, call, asking, Read, contents, missing,
  failed, read_file,
}
use lan_nickname.Protocol.HostKey.{parse_key}
use lan_nickname.Store.Cache
use lan_nickname.Store.Cache.{load, decoded, load_read, found_place}
use lan_nickname.Store.{Store, prune, new_store}

pub data Error : Type 0 where
  bad_options : Agent.Error → Error
  not_loaded : Cache.Error → Error
  no_socket no_broadcasts no_multicast_ttl no_loopback : Error

-- The peers that are known, the machine's host key and the log.
pub record Opened : Type 0 where
  pub peers : Store
  pub key : Bytes
  pub log : List Log

-- A key that cannot be loaded is only logged; it is empty then.
abbrev pub keyed : Result HostKey.Error Bytes × World → Result Error (Bytes × List Log) × World
keyed (ok key, w) = (ok (key, []), w)
keyed (err e, w) = (ok ([], no_host_key ∷ []), w)

abbrev pub host_key : List Bytes → Io Error (Bytes × List Log)
host_key paths w = keyed (load_host_key paths w)

-- `Run` up to the calls that prepare the socket, from the options with their defaults and the paths of the key
-- files; now is the time of the pruning. E holds the time to live of the options as a number.
unfoldable pub open_agent : Settings → Setting → List Bytes → ℕ → Io Error Opened
unfolding check_settings load_host_key load prune call
open_agent o E paths now = do
  wrap bad_options (from_result (check_settings o))
  found ← host_key paths
  peers ← wrap not_loaded (load E.json E.cache)
  call (asking (codes "ListenUDP")) no_socket
  call (asking (codes "enableBroadcast")) no_broadcasts
  call (asking (codes "SetMulticastTTL")) no_multicast_ttl
  call (asking (codes "SetMulticastLoopback")) no_loopback
  pure (record { peers = prune (now - E.ttl) peers; key = found.0; log = found.1 })

-- What `Run` ends with, before its loop or in it.
pub data Ending : Type 0 where
  refused : Error → World → Ending
  went : Outcome → Ending

abbrev pub machine_of : Opened → World → Machine
machine_of opened w = record {
  peers = opened.peers;
  dirty = false;
  joined = [];
  log = opened.log;
  world = w;
}

abbrev pub with_key : Announcer → Bytes → Announcer
with_key A key = record A { key = key }

module _ (A : Announcer) (E : Setting) (l : Local) (c : Clock) (es : List Input) where
  abbrev pub opened_run : Result Error Opened × World → Ending
  opened_run (err e, w) = refused e w
  opened_run (ok opened, w) =
      let B = with_key A opened.key in
      went (next B E (start B E l c (machine_of opened w)) (λ m. run B E m es))

  unfoldable pub run_agent : Settings → List Bytes → ℕ → World → Ending
  unfolding open_agent start run
  run_agent o paths now w = opened_run (open_agent o E paths now w)
