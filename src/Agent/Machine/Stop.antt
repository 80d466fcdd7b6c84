-- ===== src/Agent/Machine/Stop.antt =====
-- The hosts file when the agent is told to stop.
use lan_nickname.Agent.Announce.{Announcer}
use lan_nickname.Agent.Flush.Outcome.{IsReady, Shown, flush_files-HasFlushed}
use lan_nickname.Agent.Flush.{Setting, Clock, flush_files}
use lan_nickname.Agent.Machine.Hosts.{IsFollowed, follow}
use lan_nickname.Agent.Machine.{Machine, stopped, done, flush, step}
use lan_nickname.Agent.{hour}
use lan_nickname.Base.Dict.{Dict}
use lan_nickname.Base.{
  ℕ, ◌+◌, ◌-◌, ◌<◌, List, [], ◌≡◌, refl, ◌∙◌, ap, subst, Option, none, some, Result, ok, err, Bytes,
  All,
}
use lan_nickname.Config.Load.{Place}
use lan_nickname.Files.Replace.{text_in}
use lan_nickname.Files.{World}
use lan_nickname.Hosts.Clean.{PrintsPlain}
use lan_nickname.Hosts.Sync
use lan_nickname.Hosts.{begin_marker, end_marker, render}
use lan_nickname.Managed.Rerender.{IsUnmanaged}
use lan_nickname.Publish
use lan_nickname.Publish.{HostsDone, Published}
use lan_nickname.Store.Heard.{prune-All}
use lan_nickname.Store.{Store, Snapshot, prune, sort, take_snapshot}

no_peers_left :
    (before now listed : ℕ) (s : Store)
    → All (λ (_, k). All (λ (_, t). t < now + hour) k.addresses) s
    → take_snapshot (prune before (prune (now + hour) s)) listed
      ≡ record { updated_at = listed; peers = [] }
unfolding take_snapshot prune sort
no_peers_left before now listed s past = rw (prune-All (now + hour) s past) refl

module _ (A : Announcer) (E : Setting) (p : Place) (ready : IsReady E p) (original u : Bytes)
    (printed : PrintsPlain E.net) (un : IsUnmanaged begin_marker end_marker original u) where
  done_ok :
      (shown : List Snapshot) (snapshot : Snapshot) (old : Dict Bytes)
      (r : Result Sync.Error (Unit {0})) (w : World)
      → HostsDone E.net E.quote E.targets snapshot old r w
      → IsFollowed A E p ready original shown old
      → r ≡ ok tt
      → render E.net original snapshot ≡ ok (text_in E.targets.hosts w.files)
  done_ok shown snapshot old (ok _) w h f fine =
      follow E.net original u printed un shown (text_in E.targets.hosts old)
        (text_in E.targets.hosts w.files) snapshot f h
  done_ok shown snapshot old (err e) w h f fine = cc

  Shown-ok :
      (shown : List Snapshot) (snapshot : Snapshot) (old : Dict Bytes) (x : Option Publish.Outcome)
      (o : Publish.Outcome) (w : World)
      → Shown E p old snapshot x w
      → IsFollowed A E p ready original shown old
      → x ≡ some o
      → o.hosts ≡ ok tt
      → render E.net original snapshot ≡ ok (text_in E.targets.hosts w.files)
  Shown-ok shown snapshot old none o w h f e fine = cc
  Shown-ok shown snapshot old (some y) o w h f e fine =
      let same : y ≡ o = cc in
      done_ok shown snapshot old y.hosts w h.hosts f (ap (λ z. z.hosts) same ∙ fine)

  flush-Restores :
      (shown : List Snapshot) (m : Machine) (now : ℕ) (c : Clock) (o : Publish.Outcome)
      → All (λ (_, k). All (λ (_, t). t < now + hour) k.addresses) m.peers
      → IsFollowed A E p ready original shown m.world.files
      → (flush_files E c (prune (now + hour) m.peers) m.world).0.published ≡ some o
      → o.hosts ≡ ok tt
      → render E.net original (record { updated_at = c.listed; peers = [] })
        ≡ ok (
            text_in E.targets.hosts
              (flush A E c (record m { peers = prune (now + hour) m.peers })).world.files)
  unfolding flush
  flush-Restores shown m now c o past f e fine =
      let r = flush_files E c (prune (now + hour) m.peers) m.world in
      let done = flush_files-HasFlushed E p c (prune (now + hour) m.peers) m.world ready in
      let kept = prune (c.pruned - E.ttl) (prune (now + hour) m.peers) in
      subst (λ x. render E.net original x ≡ ok (text_in E.targets.hosts r.1.files))
        (no_peers_left (c.pruned - E.ttl) now c.listed m.peers past)
        (Shown-ok shown (take_snapshot kept c.listed) m.world.files r.0.published o r.1 done.shown f
          e fine)

  -- When the agent is told to stop, no time lies an hour or more ahead, and the last synchronisation of the
  -- hosts file succeeds, the agent stops with the file as the original renders to with no machines. The
  -- premises: the file was the original or what that renders to with peers that are clean, as `IsClean` says;
  -- printed addresses hold no number sign and no carriage return; a section of the original is complete, its
  -- other text shows no marker, and holds no carriage return unless the original has one before a newline; the
  -- paths are given, the cache has a place, and it, the published files and their temporaries are different
  -- files.
  pub stop-Restores :
      (shown : List Snapshot) (m m' : Machine) (now : ℕ) (c : Clock) (o : Publish.Outcome)
      → All (λ (_, k). All (λ (_, t). t < now + hour) k.addresses) m.peers
      → IsFollowed A E p ready original shown m.world.files
      → step A E m (done now c) ≡ stopped m'
      → (flush_files E c (prune (now + hour) m.peers) m.world).0.published ≡ some o
      → o.hosts ≡ ok tt
      → render E.net original (record { updated_at = c.listed; peers = [] })
        ≡ ok (text_in E.targets.hosts m'.world.files)
  unfolding step
  stop-Restores shown m m' now c o past f ends e fine =
      let same : flush A E c (record m { peers = prune (now + hour) m.peers }) ≡ m' = cc in
      flush-Restores shown m now c o past f e fine
      ∙ ap (λ (x : Machine). ok (text_in E.targets.hosts x.world.files)) same
