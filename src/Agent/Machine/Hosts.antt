-- ===== src/Agent/Machine/Hosts.antt =====
-- The hosts file while the agent runs.
use lan_nickname.Agent.Announce.Files.{advertise_on-others, join_groups-files}
use lan_nickname.Agent.Announce.{Announcer, interfaces_of, advertise_on}
use lan_nickname.Agent.Flush.Outcome.{IsReady, Shown, flush_files-HasFlushed}
use lan_nickname.Agent.Flush.{Setting, Clock, flush_files}
use lan_nickname.Agent.Machine.{
  Machine, Input, done, read_error, incoming, announce_tick, interface_tick, flush_tick, Outcome,
  running, stopped, failed, step, run, next, flush, refreshed,
}
use lan_nickname.Agent.{Failure, hour}
use lan_nickname.Base.Dict.{Dict, lookup}
use lan_nickname.Base.{
  ℕ, ◌+◌, ◌-◌, Bool, true, false, List, [], ◌∷◌, ◌++◌, ◌≡◌, ◌≢◌, refl, sym, ◌∙◌, ap, subst, ◌⊎◌,
  inl, inr, Option, none, some, Result, ok, err, Bytes, All, Bool-cases, is_empty, if◌then◌else◌,
}
use lan_nickname.Config.Load.{Place}
use lan_nickname.Config.State.{temporary_of}
use lan_nickname.Files.Replace.{text_in}
use lan_nickname.Files.{World, found, text_of}
use lan_nickname.Hosts.Clean.{IsClean, PrintsPlain}
use lan_nickname.Hosts.Rerender.{render_again}
use lan_nickname.Hosts.Sync
use lan_nickname.Hosts.{begin_marker, end_marker, render, Net}
use lan_nickname.Managed.Rerender.{IsUnmanaged}
use lan_nickname.Network.{Joined}
use lan_nickname.Publish
use lan_nickname.Publish.{HostsDone, Published}
use lan_nickname.Store.Order.{sort-All}
use lan_nickname.Store.{Store, Snapshot, prune, prune_addresses, take_snapshot, values, peer_lt}

abbrev pub AllClean : Store → Type 0
AllClean s = All IsClean (values s)

prune-AllClean : (before : ℕ) (s : Store) → AllClean s → AllClean (prune before s)
unfolding prune
prune-AllClean before [] h = tt
prune-AllClean before ((k, p) ∷ s) (c, h) =
    let rest = prune-AllClean before s h in
    elim (Bool-cases (is_empty (prune_addresses before p.addresses))) [
      | inl gone ↦ rw gone rest
      | inr left ↦
          rw left (record { label = c.label; one_line = c.one_line; no_marker = c.no_marker }, rest)
    ]

snapshot-AllClean : (s : Store) (now : ℕ) → AllClean s → All IsClean (take_snapshot s now).peers
unfolding take_snapshot
snapshot-AllClean s now h = sort-All peer_lt IsClean (values s) h

abbrev pub IsOneOf : Snapshot → List Snapshot → Type 0
IsOneOf s [] = ⊥
IsOneOf s (t ∷ ts) = (s ≡ t) ⊎ IsOneOf s ts

-- A text of the hosts file that follows an original one: that itself, or what it renders to with one of the
-- shown snapshots, all of its peers being clean.
abbrev pub Follows : Net → List Snapshot → Bytes → Bytes → Type 0
Follows N shown original text =
    (text ≡ original)
    ⊎ ((s : Snapshot) × IsOneOf s shown × (All IsClean s.peers) × (render N original s ≡ ok text))

Follows-more :
    (N : Net) (more shown : List Snapshot) (original text : Bytes)
    → Follows N shown original text
    → Follows N (more ++ shown) original text
Follows-more N [] shown original text f = f
Follows-more N (t ∷ more) shown original text f = elim (Follows-more N more shown original text f) [
  | inl same ↦ inl same
  | inr (s, one, clean, made) ↦ inr (s, inr one, clean, made)
]

module _ (N : Net) (original u : Bytes) (printed : PrintsPlain N)
    (un : IsUnmanaged begin_marker end_marker original u) where
  -- Rendering a text that follows the original gives what the original renders to.
  pub follow :
      (shown : List Snapshot) (text new : Bytes) (s : Snapshot)
      → Follows N shown original text
      → render N text s ≡ ok new
      → render N original s ≡ ok new
  follow shown text new s (inl e) r = rw e at r
  follow shown text new s (inr (s₁, _, clean, e)) r =
      let (out, made, again) = render_again N s₁ s printed un clean in
      let same : out ≡ text = cc in sym again ∙ ap (λ t. render N t s) same ∙ r

module _ (A : Announcer) (E : Setting) where
  -- Every machine of a run knows clean peers only.
  abbrev pub GoesOn : Outcome → (Machine → Type 0) → Type 0
  GoesOn (running m) P = P m
  GoesOn (stopped m) P = Unit
  GoesOn (failed m) P = Unit

  unfoldable pub KnowsClean : Machine → List Input → Type 0
  unfolding step
  KnowsClean m [] = AllClean m.peers
  KnowsClean m (e ∷ es) = AllClean m.peers × GoesOn (step A E m e) (λ m'. KnowsClean m' es)

  -- The snapshot that a flush lists for the hosts.
  abbrev pub snapshot_of : Clock → Store → Snapshot
  snapshot_of c peers = take_snapshot (prune (c.pruned - E.ttl) peers) c.listed

  -- The snapshots of the flushes of one step.
  abbrev pub shown_by : Machine → Input → List Snapshot
  shown_by m (done now c) = snapshot_of c (prune (now + hour) m.peers) ∷ []
  shown_by m (flush_tick c) = if m.dirty then snapshot_of c m.peers ∷ [] else []
  shown_by m (read_error cancelled) = []
  shown_by m (incoming a address now) = []
  shown_by m (announce_tick l) = []
  shown_by m (interface_tick listed) = []

  abbrev pub onward :
      List Snapshot → Outcome → (List Snapshot → Machine → List Snapshot) → List Snapshot
  onward shown (running m) k = k shown m
  onward shown (stopped m) k = shown
  onward shown (failed m) k = shown

  -- The snapshots of all flushes of a run, behind those of the past.
  unfoldable pub shown_in : List Snapshot → Machine → List Input → List Snapshot
  unfolding step
  shown_in past m [] = past
  shown_in past m (e ∷ es) = onward (shown_by m e ++ past) (step A E m e) (λ h m'. shown_in h m' es)

module _ (A : Announcer) (E : Setting) (p : Place) (ready : IsReady E p) (original : Bytes) where
  abbrev pub IsFollowed : List Snapshot → Dict Bytes → Type 0
  IsFollowed shown files = Follows E.net shown original (text_in E.targets.hosts files)

  same-IsFollowed :
      (shown : List Snapshot) (old new : Dict Bytes)
      → lookup E.targets.hosts new ≡ lookup E.targets.hosts old
      → IsFollowed shown old
      → IsFollowed shown new
  same-IsFollowed shown old new e h =
      subst (λ o. Follows E.net shown original (text_of (found o))) (sym e) h

  more-IsFollowed :
      (more shown : List Snapshot) (files : Dict Bytes)
      → IsFollowed shown files
      → IsFollowed (more ++ shown) files
  more-IsFollowed more shown files f =
      Follows-more E.net more shown original (text_in E.targets.hosts files) f

  module _ (u : Bytes) (printed : PrintsPlain E.net)
      (un : IsUnmanaged begin_marker end_marker original u) where
    done-IsFollowed :
        (shown : List Snapshot) (snapshot : Snapshot) (old : Dict Bytes)
        (r : Result Sync.Error (Unit {0})) (w : World)
        → All IsClean snapshot.peers
        → HostsDone E.net E.quote E.targets snapshot old r w
        → IsFollowed shown old
        → IsFollowed (snapshot ∷ shown) w.files
    done-IsFollowed shown snapshot old (ok _) w clean h f = inr (
      snapshot,
      inl refl,
      clean,
      follow E.net original u printed un shown (text_in E.targets.hosts old)
          (text_in E.targets.hosts w.files) snapshot f h,
    )
    done-IsFollowed shown snapshot old (err e) w clean h f =
        more-IsFollowed (snapshot ∷ []) shown w.files (same-IsFollowed shown old w.files h f)

    Shown-IsFollowed :
        (shown : List Snapshot) (snapshot : Snapshot) (old : Dict Bytes)
        (o : Option Publish.Outcome) (w : World)
        → All IsClean snapshot.peers
        → Shown E p old snapshot o w
        → IsFollowed shown old
        → IsFollowed (snapshot ∷ shown) w.files
    Shown-IsFollowed shown snapshot old none w clean h f =
        more-IsFollowed (snapshot ∷ []) shown w.files (same-IsFollowed shown old w.files h.1 f)
    Shown-IsFollowed shown snapshot old (some o) w clean h f =
        done-IsFollowed shown snapshot old o.hosts w clean h.hosts f

    flush-IsFollowed :
        (shown : List Snapshot) (c : Clock) (m : Machine)
        → AllClean m.peers
        → IsFollowed shown m.world.files
        → IsFollowed (snapshot_of A E c m.peers ∷ shown) (flush A E c m).world.files
    unfolding flush
    flush-IsFollowed shown c m clean f =
        let kept = prune (c.pruned - E.ttl) m.peers in
        let r = flush_files E c m.peers m.world in
        let done = flush_files-HasFlushed E p c m.peers m.world ready in
        Shown-IsFollowed shown (take_snapshot kept c.listed) m.world.files r.0.published r.1
          (snapshot-AllClean kept c.listed (prune-AllClean (c.pruned - E.ttl) m.peers clean))
          done.shown f

    refreshed-IsFollowed :
        (shown : List Snapshot) (m : Machine) (r : Result Failure (List Joined))
        → IsFollowed shown m.world.files
        → IsFollowed shown (refreshed A E m r).world.files
    refreshed-IsFollowed shown m (ok locals) f =
        subst (IsFollowed shown) (sym (join_groups-files locals m.joined m.world)) f
    refreshed-IsFollowed shown m (err e) f = f

    if-IsFollowed :
        (shown : List Snapshot) (s : Snapshot) (b : Bool) (m n : Machine)
        → IsFollowed (s ∷ shown) m.world.files
        → IsFollowed shown n.world.files
        → IsFollowed ((if b then s ∷ [] else []) ++ shown) (if b then m else n).world.files
    if-IsFollowed shown s true m n hm hn = hm
    if-IsFollowed shown s false m n hm hn = hn

    -- What holds of the machine in each outcome.
    abbrev pub Ends : List Snapshot → Outcome → Type 0
    Ends shown (running m) = IsFollowed shown m.world.files
    Ends shown (stopped m) = IsFollowed shown m.world.files
    Ends shown (failed m) = IsFollowed shown m.world.files

    module _ (q : Place) (placed : A.settings ≡ some q) (nq : E.targets.hosts ≢ q.path)
        (nt : E.targets.hosts ≢ temporary_of q.path) where
      step-Ends :
          (shown : List Snapshot) (m : Machine) (e : Input)
          → AllClean m.peers
          → IsFollowed shown m.world.files
          → Ends (shown_by A E m e ++ shown) (step A E m e)
      unfolding step
      step-Ends shown m (done now c) clean f =
          flush-IsFollowed shown c (record m { peers = prune (now + hour) m.peers })
            (prune-AllClean (now + hour) m.peers clean) f
      step-Ends shown m (read_error true) clean f = f
      step-Ends shown m (read_error false) clean f = f
      step-Ends shown m (incoming a address now) clean f = f
      step-Ends shown m (announce_tick l) clean f =
          same-IsFollowed shown m.world.files
            (advertise_on A l m.peers m.joined m.world).world.files
            (advertise_on-others A l q E.targets.hosts m.peers m.joined m.world placed nq nt) f
      step-Ends shown m (interface_tick listed) clean f =
          refreshed-IsFollowed shown m (interfaces_of A.cidr listed) f
      step-Ends shown m (flush_tick c) clean f =
          if-IsFollowed shown (snapshot_of A E c m.peers) m.dirty
            (record (flush A E c m) { dirty = false }) m (flush-IsFollowed shown c m clean f) f

      next-Ends :
          (shown : List Snapshot) (o : Outcome) (es : List Input)
          → ((m : Machine)
              → KnowsClean A E m es
              → IsFollowed shown m.world.files
              → Ends (shown_in A E shown m es) (run A E m es))
          → GoesOn A E o (λ m. KnowsClean A E m es)
          → Ends shown o
          → Ends (onward A E shown o (λ h m. shown_in A E h m es)) (next A E o (λ m. run A E m es))
      next-Ends shown (running m) es ih clean f = ih m clean f
      next-Ends shown (stopped m) es ih clean f = f
      next-Ends shown (failed m) es ih clean f = f

      -- However the system answers and whatever the inputs: if the hosts file follows an original by one of
      -- some past snapshots, it does so in the end by one of them or of those that the flushes of the run
      -- list, that is, it is the original or what that renders to with one of these. The premises: the peers
      -- known at each step are clean, as `IsClean` says; printed addresses hold no number sign and no carriage
      -- return; a section of the original is complete, its other text shows no marker, and holds no carriage
      -- return unless the original has one before a newline; the paths are given, the cache and the settings
      -- have a place, the cache, the published files and their temporaries are different files, and the hosts
      -- file is apart from that of the settings and its temporary.
      pub run-Ends :
          (past : List Snapshot) (m : Machine) (es : List Input)
          → KnowsClean A E m es
          → IsFollowed past m.world.files
          → Ends (shown_in A E past m es) (run A E m es)
      unfolding run KnowsClean shown_in
      run-Ends past m [] clean f = f
      run-Ends past m (e ∷ es) (clean, later) f =
          next-Ends (shown_by A E m e ++ past) (step A E m e) es
            (λ m'. run-Ends (shown_by A E m e ++ past) m' es) later (step-Ends past m e clean f)
