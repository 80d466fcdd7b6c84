-- ===== src/Store/Cache.antt =====
-- `Load`, `Save` and `ReadSnapshot` of internal/store/store.go with the cache file. JSON of snapshots and the
-- file's place, which Config/Place gives, are parameters.
pub mod Again
use lan_nickname.Base.{ℕ, ◌-◌, [], ◌∷◌, ◌++◌, Option, none, some, Result, ok, err, Bytes, codes}
use lan_nickname.Config.Load.{Place}
use lan_nickname.Config.State.{System, SaveError, save_state}
use lan_nickname.Files.{
  World, Io, pure, raise, ◌>>=◌, from_result, wrap, Read, contents, missing, failed, read_file,
}
use lan_nickname.Store.{Store, Snapshot, new_store, load_peers, take_snapshot, prune}

pub record SnapshotJson : Type 0 where
  pub marshal : Snapshot → Bytes
  pub unmarshal : Bytes → Option Snapshot

pub data Error : Type 0 where
  no_path read_failed bad_json : Error
  save_failed : SaveError → Error

abbrev pub found_place : Option Place → Result Error Place
found_place none = err no_path
found_place (some p) = ok p

unfoldable pub decoded : Option Snapshot → Result Error Store
unfolding load_peers
decoded none = err bad_json
decoded (some snapshot) = ok (load_peers snapshot.peers new_store)

module _ (J : SnapshotJson) (place : Option Place) where
  unfoldable pub load_read : Read → Io Error Store
  unfolding decoded
  load_read missing = pure new_store
  load_read failed = raise read_failed
  load_read (contents s) = from_result (decoded (J.unmarshal s))

  unfoldable pub load : Io Error Store
  unfolding read_file load_read
  load = do p ← from_result (found_place place); r ← read_file p.path; load_read r

  unfoldable pub save : System → ℕ → Store → Io Error (Unit {0})
  unfolding save_state take_snapshot
  save S now s = do
    p ← from_result (found_place place)
    wrap save_failed (save_state S p.dir p.path (J.marshal (take_snapshot s now) ++ codes "\n"))

  unfoldable pub read_cached : ℕ → ℕ → Io Error Snapshot
  unfolding load prune take_snapshot
  read_cached ttl now = do s ← load; pure (take_snapshot (prune (now - ttl) s) now)
