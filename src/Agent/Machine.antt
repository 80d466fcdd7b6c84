-- ===== src/Agent/Machine.antt =====
-- The loop of `Run` of internal/agent/agent.go with the system's files, its log and the joined interfaces.
pub mod Refines
pub mod Hosts
pub mod Stop
use lan_nickname.Agent.Announce.{
  Announcer, Local, Advertised, advertise_on, interfaces_of, join_groups,
}
use lan_nickname.Agent.Flush.{
  Log, not_announced, not_refreshed, Setting, Clock, Flushed, flush_files, flush_log,
}
use lan_nickname.Agent.{Failure, hour}
use lan_nickname.Base.{
  ℕ, ◌+◌, Bool, true, false, List, [], ◌∷◌, ◌++◌, Option, Result, ok, err, Bytes, if◌then◌else◌,
}
use lan_nickname.Files.{World}
use lan_nickname.Network.{Interface, Joined}
use lan_nickname.Protocol.{Announcement}
use lan_nickname.Store.{Store, observe, prune}

pub record Machine : Type 0 where
  pub peers : Store
  pub dirty : Bool
  pub joined : List ℕ
  pub log : List Log
  pub world : World

-- What is received, with what the system gives while it is handled. The address of what comes in is that of
-- `received`, an IPv4 address of four bytes.
pub data Input : Type 0 where
  done : ℕ → Clock → Input
  read_error : Bool → Input
  incoming : Announcement → Bytes → ℕ → Input
  announce_tick : Local → Input
  interface_tick : Option (List Interface) → Input
  flush_tick : Clock → Input

pub data Outcome : Type 0 where
  running stopped failed : Machine → Outcome

abbrev pub take_flushed : Machine → Flushed × World → Machine
take_flushed m (r, w) = record m { peers = r.peers; log = m.log ++ flush_log r; world = w }

abbrev pub announce_log : Result Failure (Unit {0}) → List Log
announce_log (ok _) = []
announce_log (err e) = not_announced ∷ []

abbrev pub take_advertised : Machine → Advertised → Machine
take_advertised m v = record m {
  peers = v.peers;
  joined = v.joined;
  log = m.log ++ (v.log ++ announce_log v.result);
  world = v.world;
}

abbrev pub take_joined : Machine → (List ℕ × List Log) × World → Machine
take_joined m ((joined, log), w) = record m { joined = joined; log = m.log ++ log; world = w }

module _ (A : Announcer) (E : Setting) where
  unfoldable pub flush : Clock → Machine → Machine
  unfolding flush_files flush_log
  flush c m = take_flushed m (flush_files E c m.peers m.world)

  abbrev pub refreshed : Machine → Result Failure (List Joined) → Machine
  refreshed m (ok locals) = take_joined m (join_groups locals m.joined m.world)
  refreshed m (err e) = record m { log = m.log ++ not_refreshed ∷ [] }

  unfoldable pub step : Machine → Input → Outcome
  unfolding flush advertise_on join_groups observe prune
  step m (done now c) = stopped (flush c (record m { peers = prune (now + hour) m.peers }))
  step m (read_error cancelled) = if cancelled then stopped m else failed m
  step m (incoming a address now) =
      running (record m { peers = observe m.peers a (A.ip_text address) now; dirty = true })
  step m (announce_tick l) =
      running
        (record (take_advertised m (advertise_on A l m.peers m.joined m.world)) { dirty = true })
  step m (interface_tick listed) = running (refreshed m (interfaces_of A.cidr listed))
  step m (flush_tick c) = running (if m.dirty then record (flush c m) { dirty = false } else m)

  abbrev pub next : Outcome → (Machine → Outcome) → Outcome
  next (running m) k = k m
  next (stopped m) k = stopped m
  next (failed m) k = failed m

  unfoldable pub run : Machine → List Input → Outcome
  unfolding step
  run m [] = running m
  run m (e ∷ es) = next (step m e) (λ m'. run m' es)

  -- `Run` behind the loading of the store: the first announcement, which must succeed, and a flush.
  abbrev pub started : Clock → Machine → Advertised → Result Failure (Unit {0}) → Outcome
  started c m v (ok _) = running (flush c (take_advertised m v))
  started c m v (err e) = failed (take_advertised m v)

  unfoldable pub start : Local → Clock → Machine → Outcome
  unfolding advertise_on flush
  start l c m = let v = advertise_on A l m.peers m.joined m.world in started c m v v.result
