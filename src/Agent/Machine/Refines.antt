-- ===== src/Agent/Machine/Refines.antt =====
-- The machine refines the loop over the peers alone.
use lan_nickname.Agent
use lan_nickname.Agent.Announce.Sends.{
  config_seen, sends_seen, loaded, outcome_of, advertise_on-Agrees,
}
use lan_nickname.Agent.Announce.{Announcer, Local, Advertised, passed, advertise_on, interfaces_of}
use lan_nickname.Agent.Flush.{Setting, Clock, Flushed, flush_files, publish_after, with_saved}
use lan_nickname.Agent.Machine.{
  Machine, Input, done, read_error, incoming, announce_tick, interface_tick, flush_tick, Outcome,
  running, stopped, failed, step, run, next, flush, take_advertised, refreshed,
}
use lan_nickname.Agent.{Agent, Written, Failure, hour, advertise, announced}
use lan_nickname.Base.{
  ℕ, ◌+◌, ◌-◌, Bool, true, false, List, [], ◌∷◌, Option, none, some, ◌≡◌, refl, sym, ◌∙◌, ap, subst,
  Result, ok, err, if◌then◌else◌,
}
use lan_nickname.Files.{World}
use lan_nickname.Network.{Joined}
use lan_nickname.Publish
use lan_nickname.Publish.{publish}
use lan_nickname.Store.Cache
use lan_nickname.Store.Cache.{save}
use lan_nickname.Store.{Store, observe, prune, take_snapshot}

-- What a flush returns, as the loop over the peers sees it.
abbrev pub hosts_written : Option Publish.Outcome → Bool
hosts_written none = false
hosts_written (some o) = passed o.hosts

abbrev pub ssh_written : Option Publish.Outcome → Bool
ssh_written none = false
ssh_written (some o) = passed o.ssh

abbrev pub written_of : Flushed → Written
written_of r = record {
  saved = passed r.saved;
  hosts = hosts_written r.published;
  ssh = ssh_written r.published;
}

-- The same peers, marked alike.
pub record Views (g : Agent) (m : Machine) : Type 0 where
  pub peers : g.peers ≡ m.peers
  pub dirty : g.dirty ≡ m.dirty

abbrev pub Matches : Agent.Outcome → Outcome → Type 0
Matches (Agent.running g) (running m) = Views g m
Matches (Agent.stopped g) (stopped m) = Views g m
Matches (Agent.failed g) (failed m) = Views g m
Matches (Agent.running g) (stopped m) = ⊥
Matches (Agent.running g) (failed m) = ⊥
Matches (Agent.stopped g) (running m) = ⊥
Matches (Agent.stopped g) (failed m) = ⊥
Matches (Agent.failed g) (running m) = ⊥
Matches (Agent.failed g) (stopped m) = ⊥

module _ (A : Announcer) (E : Setting) where
  -- What the loop over the peers sees of an input.
  abbrev pub seen : Machine → Input → Agent.Event
  seen m (done now c) =
      Agent.done now c.pruned (written_of (flush_files E c (prune (now + hour) m.peers) m.world).0)
  seen m (read_error cancelled) = Agent.read_error cancelled
  seen m (incoming a address now) = Agent.incoming a (A.ip_text address) now
  seen m (announce_tick l) =
      Agent.announce_tick (config_seen A l (loaded A l m.world).0)
        (sends_seen A l m.joined (loaded A l m.world)) l.now
  seen m (interface_tick listed) = Agent.interface_tick
  seen m (flush_tick c) = Agent.flush_tick c.pruned (written_of (flush_files E c m.peers m.world).0)

  -- What follows where the machine runs on.
  abbrev pub rest_of : Outcome → (Machine → List Agent.Event) → List Agent.Event
  rest_of (running m) k = k m
  rest_of (stopped m) k = []
  rest_of (failed m) k = []

  publish_after-peers :
      (kept : Store) (now : ℕ) (r : Result Cache.Error (Unit {0}) × World)
      → (publish_after E kept now r).0.peers ≡ kept
  publish_after-peers kept now (saved, w) =
      (elim E.sync_hosts
        as (λ b.
          (if b
            then with_saved kept saved (publish E.net E.quote E.targets (take_snapshot kept now) w)
            else (record { peers = kept; saved = saved; published = none }, w)).0.peers
          ≡ kept) [ true ↦ refl | false ↦ refl ])

  flush-peers : (c : Clock) (m : Machine) → (flush A E c m).peers ≡ prune (c.pruned - E.ttl) m.peers
  unfolding flush flush_files
  flush-peers c m =
      let kept = prune (c.pruned - E.ttl) m.peers in
      publish_after-peers kept c.listed (save E.json E.cache E.system c.saved kept m.world)

  flush-Views :
      (c : Clock) (o : Written) (g : Agent) (m : Machine)
      → Views g m
      → Views (Agent.flush E.ttl E.sync_hosts c.pruned o g) (flush A E c m)
  unfolding Agent.flush flush
  flush-Views c o g m v = record {
    peers = ap (λ s. prune (c.pruned - E.ttl) s) v.peers ∙ sym (flush-peers c m);
    dirty = v.dirty;
  }

  announced-Views :
      (l : Local) (g : Agent) (m : Machine) (r : Result Failure Store) (v : Advertised)
      (q : Result Failure (Unit {0}))
      → Views g m
      → r ≡ outcome_of A l v q
      → ((e : Failure) → q ≡ err e → v.peers ≡ m.peers)
      → Views
          (announced A.unicode A.json A.key E.ttl E.sync_hosts g r)
          (record (take_advertised m v) { dirty = true })
  unfolding announced
  announced-Views l g m r v (ok _) same e kept = rw e (record { peers = refl; dirty = refl })
  announced-Views l g m r v (err f) same e kept =
      rw e (record { peers = same.peers ∙ sym (kept f refl); dirty = refl })

  refreshed-Views :
      (g : Agent) (m : Machine) (r : Result Failure (List Joined))
      → Views g m
      → Views g (refreshed A E m r)
  refreshed-Views g m (ok locals) v = record { peers = v.peers; dirty = v.dirty }
  refreshed-Views g m (err e) v = record { peers = v.peers; dirty = v.dirty }

  flush_if-Views :
      (c : Clock) (o : Written) (g : Agent) (m : Machine) (b : Bool)
      → g.dirty ≡ b
      → m.dirty ≡ b
      → Views g m
      → Views
          (if b then record (Agent.flush E.ttl E.sync_hosts c.pruned o g) { dirty = false } else g)
          (if b then record (flush A E c m) { dirty = false } else m)
  flush_if-Views c o g m true dg dm v = record {
    peers = (flush-Views c o g m v).peers;
    dirty = refl;
  }
  flush_if-Views c o g m false dg dm v = v

  -- One input.
  step-Matches :
      (g : Agent) (m : Machine) (e : Input)
      → Views g m
      → Matches (Agent.step A.unicode A.json A.key E.ttl E.sync_hosts g (seen m e)) (step A E m e)
  unfolding Agent.step step
  step-Matches g m (done now c) v =
      flush-Views c (written_of (flush_files E c (prune (now + hour) m.peers) m.world).0)
        (record g { peers = prune (now + hour) g.peers })
        (record m { peers = prune (now + hour) m.peers })
        (record { peers = ap (λ s. prune (now + hour) s) v.peers; dirty = v.dirty })
  step-Matches g m (read_error true) v = v
  step-Matches g m (read_error false) v = v
  step-Matches g m (incoming a address now) v = record {
    peers = ap (λ s. observe s a (A.ip_text address) now) v.peers;
    dirty = refl;
  }
  step-Matches g m (announce_tick l) v =
      let agrees = advertise_on-Agrees A l m.peers m.joined m.world in
      announced-Views l g m
        (advertise A.unicode A.json A.key (config_seen A l (loaded A l m.world).0)
          (sends_seen A l m.joined (loaded A l m.world)) l.now g.peers)
        (advertise_on A l m.peers m.joined m.world)
        (advertise_on A l m.peers m.joined m.world).result v
        (ap
            (λ s.
              advertise A.unicode A.json A.key (config_seen A l (loaded A l m.world).0)
                (sends_seen A l m.joined (loaded A l m.world)) l.now s)
            v.peers
          ∙ agrees.same)
        agrees.kept
  step-Matches g m (interface_tick listed) v = refreshed-Views g m (interfaces_of A.cidr listed) v
  step-Matches g m (flush_tick c) v =
      let o = written_of (flush_files E c m.peers m.world).0 in
      subst
        (λ b.
          Matches
            (Agent.running (
              if b
              then record (Agent.flush E.ttl E.sync_hosts c.pruned o g) { dirty = false }
              else g))
            (running (if m.dirty then record (flush A E c m) { dirty = false } else m)))
        (sym v.dirty) (flush_if-Views c o g m m.dirty v.dirty refl v)

  -- The events that the loop over the peers sees in a run.
  unfoldable pub trace : Machine → List Input → List Agent.Event
  unfolding step
  trace m [] = []
  trace m (e ∷ es) = seen m e ∷ rest_of (step A E m e) (λ m'. trace m' es)

  next-Matches :
      (o : Agent.Outcome) (p : Outcome) (es : List Input)
      → ((g : Agent) (m : Machine)
          → Views g m
          → Matches
              (Agent.run A.unicode A.json A.key E.ttl E.sync_hosts g (trace m es))
              (run A E m es))
      → Matches o p
      → Matches
          (Agent.next A.unicode A.json A.key E.ttl E.sync_hosts o (λ g.
            Agent.run A.unicode A.json A.key E.ttl E.sync_hosts g (rest_of p (λ m'. trace m' es))))
          (next A E p (λ m'. run A E m' es))
  next-Matches (Agent.running g) (running m) es ih v = ih g m v
  next-Matches (Agent.stopped g) (stopped m) es ih v = v
  next-Matches (Agent.failed g) (failed m) es ih v = v
  next-Matches (Agent.running g) (stopped m) es ih v = absurd v
  next-Matches (Agent.running g) (failed m) es ih v = absurd v
  next-Matches (Agent.stopped g) (running m) es ih v = absurd v
  next-Matches (Agent.stopped g) (failed m) es ih v = absurd v
  next-Matches (Agent.failed g) (running m) es ih v = absurd v
  next-Matches (Agent.failed g) (stopped m) es ih v = absurd v

  -- Whatever is received and however the system answers, the machine runs as the loop over the peers does on
  -- what that sees of the inputs, that is the text of an address, what became of the sends and what the
  -- flushes returned: with the same peers, marked as changed alike, and it ends the same way.
  pub run-Matches :
      (g : Agent) (m : Machine) (es : List Input)
      → Views g m
      → Matches (Agent.run A.unicode A.json A.key E.ttl E.sync_hosts g (trace m es)) (run A E m es)
  unfolding Agent.run run trace
  run-Matches g m [] v = v
  run-Matches g m (e ∷ es) v =
      next-Matches (Agent.step A.unicode A.json A.key E.ttl E.sync_hosts g (seen m e))
        (step A E m e) es (λ g' m'. run-Matches g' m' es) (step-Matches g m e v)
