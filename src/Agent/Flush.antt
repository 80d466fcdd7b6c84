-- ===== src/Agent/Flush.antt =====
-- `flush` of internal/agent/agent.go on the system's files: the peers are pruned, the cache file is saved, and
-- the hosts file and the SSH files are synchronised; a failure is only logged.
pub mod Outcome
use lan_nickname.Base.{
  ℕ, ◌-◌, Bool, true, false, List, [], ◌∷◌, ◌++◌, Option, none, some, Result, ok, err, Bytes,
  if◌then◌else◌,
}
use lan_nickname.Config.Load.{Place}
use lan_nickname.Config.State.{System}
use lan_nickname.Files.{World}
use lan_nickname.Hosts.Sync
use lan_nickname.Hosts.{Net}
use lan_nickname.Publish
use lan_nickname.Publish.{Targets, publish}
use lan_nickname.Ssh
use lan_nickname.Store.Cache
use lan_nickname.Store.Cache.{SnapshotJson, save}
use lan_nickname.Store.{Store, Snapshot, prune, take_snapshot}

-- What the log is told.
pub data Log : Type 0 where
  save_failed : Cache.Error → Log
  hosts_failed : Sync.Error → Log
  ssh_failed : Ssh.Error → Log
  not_joined no_multicast no_broadcast : Bytes → Log
  not_announced not_refreshed no_host_key : Log

abbrev pub entry : {E : Type 0} → (E → Log) → Result E (Unit {0}) → List Log
entry f (ok _) = []
entry f (err e) = f e ∷ []

-- What the system gives the agent, and its options.
pub record Setting : Type 0 where
  pub system : System
  pub net : Net
  pub quote : Bytes → Bytes
  pub json : SnapshotJson
  pub cache : Option Place
  pub targets : Targets
  pub ttl : ℕ
  pub sync_hosts : Bool

-- What `time.Now` gives at the pruning, in `Save`, and at the snapshot for the hosts.
pub record Clock : Type 0 where
  pub pruned : ℕ
  pub saved : ℕ
  pub listed : ℕ

pub record Flushed : Type 0 where
  pub peers : Store
  pub saved : Result Cache.Error (Unit {0})
  pub published : Option Publish.Outcome

abbrev pub with_saved :
    Store → Result Cache.Error (Unit {0}) → Publish.Outcome × World → Flushed × World
with_saved peers saved (o, w) = (record { peers = peers; saved = saved; published = some o }, w)

module _ (E : Setting) where
  abbrev pub publish_after : Store → ℕ → Result Cache.Error (Unit {0}) × World → Flushed × World
  publish_after kept now (saved, w) =
      if E.sync_hosts
      then with_saved kept saved (publish E.net E.quote E.targets (take_snapshot kept now) w)
      else (record { peers = kept; saved = saved; published = none }, w)

  unfoldable pub flush_files : Clock → Store → World → Flushed × World
  unfolding prune save publish take_snapshot
  flush_files c peers w =
      let kept = prune (c.pruned - E.ttl) peers in
      publish_after kept c.listed (save E.json E.cache E.system c.saved kept w)

abbrev pub published_log : Option Publish.Outcome → List Log
published_log none = []
published_log (some o) = entry hosts_failed o.hosts ++ entry ssh_failed o.ssh

-- What `flush` logs.
unfoldable pub flush_log : Flushed → List Log
flush_log r = entry save_failed r.saved ++ published_log r.published
