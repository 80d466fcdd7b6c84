-- ===== src/Agent.antt =====
-- internal/agent/agent.go: the options of `Run`, and its loop as a step function over what it receives.
-- A test of a channel or the clock is an event; a failed save or synchronisation is only logged there.
pub mod Options
pub mod Loop
pub mod HostKey
pub mod Receive
pub mod Flush
pub mod Announce
pub mod Machine
pub mod Open
use lan_nickname.Base.{
  ℕ, ◌+◌, ◌-◌, ◌*◌, Bool, true, false, not, ◌&&◌, ◌||◌, List, [], ◌∷◌, ◌++◌, Option, none, some,
  Result, ok, err, ◌>>=◌, ◌>>◌, refuse, ◌==◌, if◌then◌else◌, Bytes, is_empty,
}
use lan_nickname.Base.Duration.{ℤ, pos, negsuc, second, int_lt, is_zero, double}
use lan_nickname.Config.{Config}
use lan_nickname.Protocol
use lan_nickname.Protocol.{Announcement, Json, new_announcement, encode}
use lan_nickname.Ssh.{Paths}
use lan_nickname.Store.{Peer, Store, Snapshot, observe, prune, take_snapshot}
use lan_nickname.Text.Unicode.{Unicode}

pub record Settings : Type 0 where
  pub port : ℤ
  pub interval : ℤ
  pub ttl : ℤ
  pub hosts_path : Bytes
  pub ssh_paths : Paths
  pub sync_hosts : Bool

pub data Error : Type 0 where
  short_interval short_ttl : Error

abbrev pub default_port : ℤ
default_port = pos 47777

abbrev pub default_interval : ℤ
default_interval = pos 5_000_000_000

abbrev pub default_ttl : ℤ
default_ttl = pos 16_000_000_000

abbrev no_ssh_paths : Paths → Bool
no_ssh_paths p = is_empty p.config && is_empty p.known_hosts && is_empty p.null_device

-- The first lines of `Run`, from the default paths of the system.
unfoldable pub with_defaults : Bytes → Paths → Settings → Settings
with_defaults hosts_path ssh_paths o = record {
  port = if is_zero o.port then default_port else o.port;
  interval = if is_zero o.interval then default_interval else o.interval;
  ttl = if is_zero o.ttl then default_ttl else o.ttl;
  hosts_path = if is_empty o.hosts_path then hosts_path else o.hosts_path;
  ssh_paths = if no_ssh_paths o.ssh_paths then ssh_paths else o.ssh_paths;
  sync_hosts = o.sync_hosts;
}

unfoldable pub check_settings : Settings → Result Error (Unit {0})
check_settings o = do
  refuse (int_lt o.interval (pos second)) short_interval
  refuse (not (int_lt (double o.interval) o.ttl)) short_ttl

-- One interface of an announcement: its address as text, whether either send succeeded, and the time.
pub record Sent : Type 0 where
  pub address : Bytes
  pub multicast_ok : Bool
  pub broadcast_ok : Bool
  pub at : ℕ

pub data Failure : Type 0 where
  config_failed interfaces_failed : Failure
  encode_failed : Protocol.Error → Failure

unfoldable pub observe_sent : Announcement → List Sent → Store → Store
unfolding observe
observe_sent a [] s = s
observe_sent a (i ∷ is) s =
    observe_sent a is (if i.multicast_ok || i.broadcast_ok then observe s a i.address i.at else s)

abbrev pub lift : {A : Type 0} → Result Protocol.Error A → Result Failure A
lift (ok a) = ok a
lift (err e) = err (encode_failed e)

-- `advertise`: from what `LoadOrCreate` and `joinInterfaces` gave, and what became of each send.
unfoldable pub advertise :
    Unicode
    → Json
    → Bytes
    → Result Failure Config
    → Result Failure (List Sent)
    → ℕ
    → Store
    → Result Failure Store
unfolding new_announcement encode observe_sent
advertise U J key cfg sends now s = do
  c ← cfg
  sent ← sends
  let a = new_announcement U c now key
  _ ← lift (encode U J a)
  ok (observe_sent a sent s)

-- Whether `Save` and the two `Sync` of a flush return no error; one that does is only logged.
pub record Written : Type 0 where
  pub saved : Bool
  pub hosts : Bool
  pub ssh : Bool

-- The state of the loop, with the peers of the last snapshots that were saved, and written to the hosts file
-- and to the SSH files without error, and with what the last flush returned.
pub record Agent : Type 0 where
  pub peers : Store
  pub dirty : Bool
  pub saved : List Peer
  pub hosts : List Peer
  pub ssh : List Peer
  pub last : Written

-- A stop comes with the times of its pruning and of its flush, and a flush with what its calls return. The
-- address of what comes in is its text, `ip.String()`, as `Observe` takes it first.
pub data Event : Type 0 where
  done : ℕ → ℕ → Written → Event
  read_error : Bool → Event
  incoming : Announcement → Bytes → ℕ → Event
  announce_tick : Result Failure Config → Result Failure (List Sent) → ℕ → Event
  interface_tick : Event
  flush_tick : ℕ → Written → Event

pub data Outcome : Type 0 where
  running : Agent → Outcome
  stopped : Agent → Outcome
  failed : Agent → Outcome

-- `flush`
unfoldable pub flush : ℕ → Bool → ℕ → Written → Agent → Agent
unfolding prune take_snapshot
flush ttl sync_hosts now o g =
    let kept = prune (now - ttl) g.peers in
    let listed = (take_snapshot kept now).peers in
    record g {
      peers = kept;
      saved = if o.saved then listed else g.saved;
      hosts = if sync_hosts && o.hosts then listed else g.hosts;
      ssh = if sync_hosts && o.ssh then listed else g.ssh;
      last = o;
    }

abbrev pub hour : ℕ
hour = 3600 * second

module _ (U : Unicode) (J : Json) (key : Bytes) (ttl : ℕ) (sync_hosts : Bool) where
  -- A failed announcement leaves the peers as they are.
  unfoldable pub announced : Agent → Result Failure Store → Agent
  announced g (ok s) = record g { peers = s; dirty = true }
  announced g (err _) = record g { dirty = true }

  -- `Run` from the loaded store to the loop: the first announcement, which must succeed, and a flush.
  unfoldable pub start :
      Result Failure Config
      → Result Failure (List Sent)
      → ℕ
      → ℕ
      → Written
      → Store
      → Result Failure Agent
  unfolding advertise flush
  start cfg sends now later o s = do
    observed ← advertise U J key cfg sends now s
    let loaded : Agent = record {
      peers = observed;
      dirty = false;
      saved = [];
      hosts = [];
      ssh = [];
      last = o;
    }
    ok (record (flush ttl sync_hosts later o loaded) { dirty = false })

  unfoldable pub step : Agent → Event → Outcome
  unfolding flush announced advertise observe prune
  step g (done now later o) =
      stopped (flush ttl sync_hosts later o (record g { peers = prune (now + hour) g.peers }))
  step g (read_error cancelled) = if cancelled then stopped g else failed g
  step g (incoming a address now) =
      running (record g { peers = observe g.peers a address now; dirty = true })
  step g (announce_tick cfg sends now) =
      running (announced g (advertise U J key cfg sends now g.peers))
  step g interface_tick = running g
  step g (flush_tick now o) =
      running (if g.dirty then record (flush ttl sync_hosts now o g) { dirty = false } else g)

  abbrev pub next : Outcome → (Agent → Outcome) → Outcome
  next (running g) k = k g
  next (stopped g) k = stopped g
  next (failed g) k = failed g

  -- The loop over a sequence of events, up to the first that ends it.
  unfoldable pub run : Agent → List Event → Outcome
  unfolding step
  run g [] = running g
  run g (e ∷ es) = next (step g e) (λ g'. run g' es)
