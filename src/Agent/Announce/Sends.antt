-- ===== src/Agent/Announce/Sends.antt =====
-- What an announcement does to the peers, as what `advertise` makes of the outcome of the sends.
use lan_nickname.Agent.Announce.{
  passed, send_multicast, send_broadcast, Announcing, announce_on, announce_all, Announcer, Local,
  Advertised, with_config, with_interfaces, encoded, announcement_of, interfaces_of, advertise_on,
  join_groups,
}
use lan_nickname.Agent.{Sent, Failure, config_failed, observe_sent, advertise, lift}
use lan_nickname.Base.{ℕ, ◌+◌, List, [], ◌∷◌, ◌≡◌, refl, Result, ok, err, Bytes, ◌>>=◌, ap, sym}
use lan_nickname.Config.Load.{LoadError, load_or_create}
use lan_nickname.Config.{Config}
use lan_nickname.Files.{World}
use lan_nickname.Network.{Joined}
use lan_nickname.Protocol
use lan_nickname.Protocol.{Announcement, encode}
use lan_nickname.Store.{Store}

-- The outcomes of the sends, in order.
unfoldable pub sends : (Bytes → Bytes) → Bytes → (ℕ → ℕ) → ℕ → List Joined → World → List Sent
unfolding send_multicast send_broadcast
sends text payload clock k [] w = []
sends text payload clock k (i ∷ is) w =
    let first = send_multicast payload i w in
    let second = send_broadcast payload i first.1 in
    (record {
      address = text i.ipv4;
      multicast_ok = passed first.0;
      broadcast_ok = passed second.0;
      at = clock k;
    })
    ∷ sends text payload clock (k + 1) is second.1

peers-announce_all :
    (text : Bytes → Bytes) (a : Announcement) (payload : Bytes) (clock : ℕ → ℕ) (k : ℕ)
    (is : List Joined) (s : Announcing)
    → (announce_all text a payload clock k is s).peers
      ≡ observe_sent a (sends text payload clock k is s.world) s.peers
unfolding announce_all announce_on sends observe_sent
peers-announce_all text a payload clock k [] s = refl
peers-announce_all text a payload clock k (i ∷ is) s =
    peers-announce_all text a payload clock (k + 1) is (announce_on text a payload (clock k) i s)

module _ (A : Announcer) (l : Local) where
  -- What the system gave, as an event of the loop sees it.
  abbrev pub config_seen : Result LoadError Config → Result Failure Config
  config_seen (ok cfg) = ok cfg
  config_seen (err e) = err config_failed

  abbrev pub sends_of : List Joined → World → Result Protocol.Error Bytes → List Sent
  sends_of locals w (ok payload) = sends A.ip_text payload l.clock 0 locals w
  sends_of locals w (err e) = []

  abbrev pub sends_on :
      Config → Result Failure (List Joined) → List ℕ → World → Result Failure (List Sent)
  sends_on cfg (ok locals) joined w = ok (
      sends_of locals (join_groups locals joined w).1
        (encode A.unicode A.json (announcement_of A l cfg)))
  sends_on cfg (err e) joined w = err e

  abbrev pub sends_seen : List ℕ → Result LoadError Config × World → Result Failure (List Sent)
  sends_seen joined (ok cfg, w) = sends_on cfg (interfaces_of A.cidr l.listed) joined w
  sends_seen joined (err e, w) = ok []

  abbrev pub outcome_of : Advertised → Result Failure (Unit {0}) → Result Failure Store
  outcome_of v (ok _) = ok v.peers
  outcome_of v (err e) = err e

  -- An announcement gives the peers on success, and leaves them on failure.
  pub record Agrees (peers : Store) (r : Result Failure Store) (v : Advertised) : Type 0 where
    pub same : r ≡ outcome_of v v.result
    pub kept : (e : Failure) → v.result ≡ err e → v.peers ≡ peers

  encoded-Agrees :
      (a : Announcement) (locals : List Joined) (joined : List ℕ) (s : Announcing)
      (m : Result Protocol.Error Bytes)
      → Agrees s.peers
          (lift m >>= λ _. ok (observe_sent a (sends_of locals s.world m) s.peers))
          (encoded A l a locals joined s m)
  encoded-Agrees a locals joined s (ok payload) = record {
    same = ap ok (sym (peers-announce_all A.ip_text a payload l.clock 0 locals s));
    kept = λ e h. cc;
  }
  encoded-Agrees a locals joined s (err f) = record { same = refl; kept = λ e h. refl }

  interfaces-Agrees :
      (cfg : Config) (r : Result Failure (List Joined)) (peers : Store) (joined : List ℕ)
      (w : World)
      → Agrees peers
          (advertise A.unicode A.json A.key (ok cfg) (sends_on cfg r joined w) l.now peers)
          (with_interfaces A l cfg r peers joined w)
  unfolding advertise
  interfaces-Agrees cfg (ok locals) peers joined w =
      let j = join_groups locals joined w in
      encoded-Agrees (announcement_of A l cfg) locals j.0.0
        (record { peers = peers; log = j.0.1; world = j.1 })
        (encode A.unicode A.json (announcement_of A l cfg))
  interfaces-Agrees cfg (err e) peers joined w = record { same = refl; kept = λ f h. refl }

  loaded-Agrees :
      (peers : Store) (joined : List ℕ) (r : Result LoadError Config × World)
      → Agrees peers
          (advertise A.unicode A.json A.key (config_seen r.0) (sends_seen joined r) l.now peers)
          (with_config A l peers joined r)
  unfolding advertise
  loaded-Agrees peers joined (ok cfg, w) =
      interfaces-Agrees cfg (interfaces_of A.cidr l.listed) peers joined w
  loaded-Agrees peers joined (err e, w) = record { same = refl; kept = λ f h. refl }

  abbrev pub loaded : World → Result LoadError Config × World
  loaded w = load_or_create A.settings_json A.system A.settings l.host l.random w

  -- What the announcement does to the peers is what the loop makes of the loaded settings and the sends.
  pub advertise_on-Agrees :
      (peers : Store) (joined : List ℕ) (w : World)
      → Agrees peers
          (advertise A.unicode A.json A.key
            (config_seen (loaded w).0)
            (sends_seen joined (loaded w))
            l.now
            peers)
          (advertise_on A l peers joined w)
  unfolding advertise_on
  advertise_on-Agrees peers joined w = loaded-Agrees peers joined (loaded w)
