-- ===== src/Agent/Loop.antt =====
-- The loop over what the agent receives.
use lan_nickname.Base.{
  >>=-eq-ok, ℕ, ◌+◌, ◌-◌, ◌<◌, Bool, true, false, ◌||◌, ◌&&◌, List, [], ◌∷◌, Result, ok, err, ◌>>=◌,
  ◌≡◌, refl, subst, inl, inr, Bool-cases, if◌then◌else◌, Bytes, All,
}
use lan_nickname.Protocol
use lan_nickname.Protocol.{Announcement, Json, new_announcement, encode}
use lan_nickname.Store.{Peer, Store, observe, prune, peer_lt, sort, values, take_snapshot}
use lan_nickname.Store.Invariant.{IsStore, observe-IsStore, prune-IsStore}
use lan_nickname.Store.Heard.{prune-All}
use lan_nickname.Text.Unicode.{Unicode}
use lan_nickname.Config.{Config}
use lan_nickname.Agent.{
  Sent, Written, Failure, observe_sent, advertise, Agent, Event, done, read_error, incoming,
  announce_tick, interface_tick, flush_tick, lift, Outcome, running, stopped, failed, flush, hour,
  announced, start, step, next, run,
}

-- The peers that a snapshot lists.
abbrev pub listing : Agent → List Peer
listing g = sort peer_lt (values g.peers)

-- What was written is what is known, unless the peers changed since or the writing failed.
pub record IsAgent (sync_hosts : Bool) (g : Agent) : Type 0 where
  pub store : IsStore g.peers
  pub saved : g.dirty ≡ false → g.last.saved ≡ true → g.saved ≡ listing g
  pub hosts : g.dirty ≡ false → sync_hosts ≡ true → g.last.hosts ≡ true → g.hosts ≡ listing g
  pub ssh : g.dirty ≡ false → sync_hosts ≡ true → g.last.ssh ≡ true → g.ssh ≡ listing g

abbrev pub IsOutcome : Bool → Outcome → Type 0
IsOutcome sync_hosts (running g) = IsAgent sync_hosts g
IsOutcome sync_hosts (stopped g) = IsStore g.peers
IsOutcome sync_hosts (failed g) = IsStore g.peers

observe_sent-IsStore :
    (a : Announcement) (is : List Sent) (s : Store) → IsStore s → IsStore (observe_sent a is s)
unfolding observe_sent
observe_sent-IsStore a [] s h = h
observe_sent-IsStore a (i ∷ is) s h = elim (Bool-cases (i.multicast_ok || i.broadcast_ok)) [
  | inl sent ↦ rw sent (
      observe_sent-IsStore a is (observe s a i.address i.at) (observe-IsStore s a i.address i.at h))
  | inr not_sent ↦ rw not_sent (observe_sent-IsStore a is s h)
]

flush-IsStore :
    (ttl : ℕ) (sync_hosts : Bool) (now : ℕ) (o : Written) (g : Agent)
    → IsStore g.peers
    → IsStore (flush ttl sync_hosts now o g).peers
unfolding flush
flush-IsStore ttl sync_hosts now o g h = prune-IsStore (now - ttl) g.peers h

flush-IsAgent :
    (ttl : ℕ) (sync_hosts : Bool) (now : ℕ) (o : Written) (g : Agent)
    → IsStore g.peers
    → IsAgent sync_hosts (record (flush ttl sync_hosts now o g) { dirty = false })
unfolding flush take_snapshot
flush-IsAgent ttl sync_hosts now o g h = record {
  store = flush-IsStore ttl sync_hosts now o g h;
  saved = λ _ works. rw works refl;
  hosts = λ _ on works. rw (on, works) refl;
  ssh = λ _ on works. rw (on, works) refl;
}

-- After any change the snapshot is marked as due.
dirty-IsAgent :
    (sync_hosts : Bool) (g : Agent) (s : Store)
    → IsStore s
    → IsAgent sync_hosts (record g { peers = s; dirty = true })
dirty-IsAgent sync_hosts g s h = record {
  store = h;
  saved = λ e. cc;
  hosts = λ e. cc;
  ssh = λ e. cc;
}

-- An announcement that was encoded leaves the observations as the result.
lift-eq-ok :
    (r : Result Protocol.Error Bytes) (s : Store) {s' : Store}
    → (lift r >>= λ _. ok s) ≡ ok s'
    → s ≡ s'
lift-eq-ok (ok b) s e = cc
lift-eq-ok (err f) s e = cc

ok_injective : {E A : Type 0} {a b : A} → (let r : Result E A = ok a in r ≡ ok b) → a ≡ b
ok_injective e = cc

if-IsAgent :
    (sync_hosts b : Bool) (f g : Agent)
    → IsAgent sync_hosts f
    → IsAgent sync_hosts g
    → IsAgent sync_hosts (if b then f else g)
if-IsAgent sync_hosts true f g hf hg = hf
if-IsAgent sync_hosts false f g hf hg = hg

module _ (U : Unicode) (J : Json) (key : Bytes) (ttl : ℕ) (sync_hosts : Bool) where
  advertise-IsStore :
      (cfg : Result Failure Config) (sends : Result Failure (List Sent)) (now : ℕ) (s : Store)
      {s' : Store}
      → IsStore s
      → advertise U J key cfg sends now s ≡ ok s'
      → IsStore s'
  unfolding advertise
  advertise-IsStore (err e) sends now s h a = cc
  advertise-IsStore (ok c) (err e) now s h a = cc
  advertise-IsStore (ok c) (ok sent) now s h a =
      let made = new_announcement U c now key in
      subst IsStore (lift-eq-ok (encode U J made) (observe_sent made sent s) a)
        (observe_sent-IsStore made sent s h)

  -- From a well-formed store the loop starts in a state where the invariant of `run-IsAgent` holds.
  pub start-IsAgent :
      (cfg : Result Failure Config) (sends : Result Failure (List Sent)) (now later : ℕ)
      (o : Written) (s : Store) {g : Agent}
      → IsStore s
      → start U J key ttl sync_hosts cfg sends now later o s ≡ ok g
      → IsAgent sync_hosts g
  unfolding start
  start-IsAgent cfg sends now later o s h e =
      let (observed, a, e₁) = >>=-eq-ok (advertise U J key cfg sends now s) _ e in
      let loaded : Agent = record {
        peers = observed;
        dirty = false;
        saved = [];
        hosts = [];
        ssh = [];
        last = o;
      } in
      subst (IsAgent sync_hosts) (ok_injective e₁)
        (flush-IsAgent ttl sync_hosts later o loaded (advertise-IsStore cfg sends now s h a))

  announced-IsAgent :
      (g : Agent) (r : Result Failure Store)
      → ((s : Store) → r ≡ ok s → IsStore s)
      → IsStore g.peers
      → IsAgent sync_hosts (announced U J key ttl sync_hosts g r)
  unfolding announced
  announced-IsAgent g (ok s) f h = dirty-IsAgent sync_hosts g s (f s refl)
  announced-IsAgent g (err e) f h = dirty-IsAgent sync_hosts g g.peers h

  step-IsAgent :
      (g : Agent) (e : Event)
      → IsAgent sync_hosts g
      → IsOutcome sync_hosts (step U J key ttl sync_hosts g e)
  unfolding step
  step-IsAgent g (done now later o) h =
      let pruned : Agent = record g { peers = prune (now + hour) g.peers } in
      flush-IsStore ttl sync_hosts later o pruned (prune-IsStore (now + hour) g.peers h.store)
  step-IsAgent g (read_error cancelled) h = elim (Bool-cases cancelled) [
    | inl e ↦ rw e h.store
    | inr e ↦ rw e h.store
  ]
  step-IsAgent g (incoming a address now) h =
      dirty-IsAgent sync_hosts g (observe g.peers a address now)
        (observe-IsStore g.peers a address now h.store)
  step-IsAgent g (announce_tick cfg sends now) h =
      announced-IsAgent g (advertise U J key cfg sends now g.peers)
        (λ s. advertise-IsStore cfg sends now g.peers h.store) h.store
  step-IsAgent g interface_tick h = h
  step-IsAgent g (flush_tick now o) h =
      if-IsAgent sync_hosts g.dirty (record (flush ttl sync_hosts now o g) { dirty = false }) g
        (flush-IsAgent ttl sync_hosts now o g h.store) h

  next-IsOutcome :
      (o : Outcome) (k : Agent → Outcome)
      → ((g : Agent) → IsAgent sync_hosts g → IsOutcome sync_hosts (k g))
      → IsOutcome sync_hosts o
      → IsOutcome sync_hosts (next U J key ttl sync_hosts o k)
  next-IsOutcome (running g) k f h = f g h
  next-IsOutcome (stopped g) k f h = h
  next-IsOutcome (failed g) k f h = h

  -- The agent's invariant holds through any sequence of events while it runs: the peers are a well-formed
  -- store, also where it ends; and while they are not marked as changed, the saved snapshot lists exactly
  -- them if the last save gave no error, and so do the snapshots that are in the hosts file and in the SSH
  -- files, each if hosts are synchronised and its last synchronisation gave no error.
  pub run-IsAgent :
      (g : Agent) (es : List Event)
      → IsAgent sync_hosts g
      → IsOutcome sync_hosts (run U J key ttl sync_hosts g es)
  unfolding run
  run-IsAgent g [] h = h
  run-IsAgent g (e ∷ es) h =
      next-IsOutcome (step U J key ttl sync_hosts g e) (λ g'. run U J key ttl sync_hosts g' es)
        (λ g'. run-IsAgent g' es) (step-IsAgent g e h)

  -- When the agent is told to stop and nothing was heard an hour in the future or later, no machine is
  -- left: not in the store, and not in what the last flush wrote without error.
  pub step_done :
      (g : Agent) (now later : ℕ) (o : Written)
      → All (λ (_, p). All (λ (_, t). t < now + hour) p.addresses) g.peers
      → step U J key ttl sync_hosts g (done now later o)
        ≡ stopped (record g {
          peers = [];
          saved = if o.saved then [] else g.saved;
          hosts = if sync_hosts && o.hosts then [] else g.hosts;
          ssh = if sync_hosts && o.ssh then [] else g.ssh;
          last = o;
        })
  unfolding step flush
  step_done g now later o h = rw (prune-All (now + hour) g.peers h) refl
