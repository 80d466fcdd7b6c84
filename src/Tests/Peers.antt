-- ===== src/Tests/Peers.antt =====
-- The store and the agent.
use lan_nickname.Base.{
  false, true, List, [], ◌∷◌, ◌≡◌, refl, ok, none, some, codes, if◌then◌else◌, equal,
}
use mathlib.Core.List.{Perm}
use lan_nickname.Agent.{
  start, Agent, Written, Event, incoming, flush_tick, announce_tick, done, run,
}
use lan_nickname.Agent.Loop.{IsAgent, IsOutcome, run-IsAgent}
use lan_nickname.Config.{Config}
use lan_nickname.Base.Dict.{lookup}
use lan_nickname.Protocol.{Announcement}
use lan_nickname.Store.{Peer, Store, observe, prune, take_snapshot, values}
use lan_nickname.Store.Heard.{
  last_heard, renames, last_heard-observe, lookup-observe, fresh, last_heard-prune,
}
use lan_nickname.Store.Invariant.{IsStore}
use lan_nickname.Store.Order.Snapshot.{InOrder, take_snapshot-InOrder}
use lan_nickname.Tests.Values.{ascii, json, key, heard, id₁, id₂, peer₁, peer₂}

abbrev renamed_heard : Announcement
renamed_heard = record heard { nickname = codes "Attic"; alias_name = codes "attic" }

abbrev store : Store
store = (id₁, peer₁) ∷ (id₂, peer₂) ∷ []

-- A new name forgets the old addresses.
renamed :
    last_heard (observe store renamed_heard (codes "10.0.0.9") 400) id₁ (codes "10.0.0.5") ≡ none
unfolding last_heard observe
renamed = refl

store_IsStore : IsStore store
unfolding lookup equal
store_IsStore = record {
  keys = (refl, (refl, tt));
  entries = (
    record { keyed = refl; heard = refl; once = (refl, (refl, tt)) },
    (record { keyed = refl; heard = refl; once = (refl, tt) }, tt),
  );
}

last_heard-observe_example :
    last_heard (observe store renamed_heard (codes "10.0.0.9") 400) id₂ (codes "10.0.0.7") ≡ (
      if equal id₁ id₂
      then (if equal (codes "10.0.0.9") (codes "10.0.0.7")
          then some 400
          else if renames store renamed_heard
          then none
          else last_heard store id₁ (codes "10.0.0.7"))
      else last_heard store id₂ (codes "10.0.0.7"))
last_heard-observe_example =
    last_heard-observe store renamed_heard (codes "10.0.0.9") 400 id₂ (codes "10.0.0.7")

lookup-observe_example :
    (p : Peer) × (lookup id₁ (observe store renamed_heard (codes "10.0.0.9") 400) ≡ some p)
    × (p.nickname ≡ codes "Attic")
    × (p.alias_name ≡ codes "attic")
    × (p.group ≡ [])
    × (p.host_key ≡ key)
lookup-observe_example = lookup-observe store renamed_heard (codes "10.0.0.9") 400

last_heard-prune_example :
    last_heard (prune 150 store) id₁ (codes "10.0.0.5")
    ≡ fresh 150 (last_heard store id₁ (codes "10.0.0.5"))
last_heard-prune_example = last_heard-prune 150 store id₁ (codes "10.0.0.5") store_IsStore

take_snapshot-InOrder_example :
    InOrder (take_snapshot store 400).peers × Perm (take_snapshot store 400).peers (values store)
take_snapshot-InOrder_example = take_snapshot-InOrder store 400

abbrev all_written : Written
all_written = record { saved = true; hosts = true; ssh = true }

-- The cache could not be written.
abbrev unsaved : Written
unsaved = record all_written { saved = false }

abbrev agent : Agent
agent = record { peers = store; dirty = true; saved = []; hosts = []; ssh = []; last = all_written }

agent-IsAgent : IsAgent true agent
agent-IsAgent = record { store = store_IsStore; saved = λ e. cc; hosts = λ e. cc; ssh = λ e. cc }

abbrev events : List Event
events =
    incoming heard (codes "10.0.0.9") 400
    ∷ flush_tick 450 unsaved
    ∷ announce_tick (ok (record { id = id₂; nickname = codes "NAS"; group = [] })) (ok []) 460
    ∷ done 500 501 all_written
    ∷ []

run-IsAgent_example : IsOutcome true (run ascii json key 200 true agent events)
run-IsAgent_example = run-IsAgent ascii json key 200 true agent events agent-IsAgent

abbrev machine : Config
machine = record { id = id₂; nickname = codes "NAS"; group = [] }

abbrev started : Agent
started = record {
  peers = store;
  dirty = false;
  saved = peer₁ ∷ peer₂ ∷ [];
  hosts = peer₁ ∷ peer₂ ∷ [];
  ssh = [];
  last = record { saved = true; hosts = true; ssh = false };
}

started_from :
    start ascii json key 200 true
      (ok machine)
      (ok [])
      250
      260
      (record all_written { ssh = false })
      store
    ≡ ok started
unfolding start
started_from = refl
