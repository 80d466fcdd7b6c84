-- ===== src/Agent/Announce.antt =====
-- `joinInterfaces` and `advertise` of internal/agent/agent.go: joining the group on new interfaces, and sending
-- the announcement on all of them.
pub mod Sends
pub mod Files
use lan_nickname.Agent.Flush.{Log, not_joined, no_multicast, no_broadcast}
use lan_nickname.Agent.{Failure, config_failed, interfaces_failed, encode_failed}
use lan_nickname.Base.{
  ℕ, ◌+◌, Bool, true, false, ◌||◌, List, [], ◌∷◌, ◌++◌, Option, none, some, Result, ok, err, Bytes,
  codes, ◌==◌, if◌then◌else◌,
}
use lan_nickname.Config.Load.{ConfigJson, LoadError, Place, load_or_create}
use lan_nickname.Config.State.{System}
use lan_nickname.Config.{Config}
use lan_nickname.Files.{World, call, asking, sending}
use lan_nickname.Network.{Interface, Joined, Cidr, multicast_interfaces}
use lan_nickname.Protocol
use lan_nickname.Protocol.{Announcement, Json, new_announcement, encode}
use lan_nickname.Store.{Store, observe}
use lan_nickname.Text.Unicode.{Unicode}

unfoldable pub has : ℕ → List ℕ → Bool
has n [] = false
has n (k ∷ ks) = (k == n) || has n ks

abbrev pub joining :
    ℕ → Bytes → List ℕ → Result (Unit {0}) (Unit {0}) × World → (List ℕ × List Log) × World
joining index name joined (ok _, w) = ((index ∷ joined, []), w)
joining index name joined (err _, w) = ((joined, not_joined name ∷ []), w)

-- One round of the loop of `joinInterfaces`, from the indices of the interfaces on which the group is joined.
unfoldable pub join_group : Joined → List ℕ → World → (List ℕ × List Log) × World
unfolding has call
join_group i joined w =
    if has i.interface.index joined
    then ((joined, []), w)
    else joining i.interface.index i.interface.name joined
        (call (asking (codes "JoinGroup " ++ i.interface.name)) tt w)

abbrev pub logged : List Log → (List ℕ × List Log) × World → (List ℕ × List Log) × World
logged log ((joined, more), w) = ((joined, log ++ more), w)

unfoldable pub join_groups : List Joined → List ℕ → World → (List ℕ × List Log) × World
unfolding join_group
join_groups [] joined w = ((joined, []), w)
join_groups (i ∷ is) joined w =
    let first = join_group i joined w in logged first.0.1 (join_groups is first.0.0 first.1)

abbrev pub group_address : Bytes
group_address = codes "239.255.77.77"

abbrev pub passed : {E : Type 0} → Result E (Unit {0}) → Bool
passed (ok _) = true
passed (err _) = false

abbrev pub address_of : Option Bytes → Bytes
address_of none = []
address_of (some ip) = ip

abbrev pub if_set :
    Bytes → Result (Unit {0}) (Unit {0}) × World → Result (Unit {0}) (Unit {0}) × World
if_set payload (ok _, w) = call (sending group_address payload) tt w
if_set payload (err _, w) = (err tt, w)

-- The two sends on an interface, and whether they succeeded.
unfoldable pub send_multicast : Bytes → Joined → World → Result (Unit {0}) (Unit {0}) × World
unfolding call
send_multicast payload i w =
    if_set payload (call (asking (codes "SetMulticastInterface " ++ i.interface.name)) tt w)

unfoldable pub send_broadcast : Bytes → Joined → World → Result (Unit {0}) (Unit {0}) × World
unfolding call
send_broadcast payload i w = call (sending (address_of i.broadcast) payload) tt w

abbrev pub send_log : Bool → Bool → Bytes → List Log
send_log multicast_ok broadcast_ok name =
    (if multicast_ok then [] else no_multicast name ∷ [])
    ++ (if broadcast_ok then [] else no_broadcast name ∷ [])

-- What an announcement changes.
pub record Announcing : Type 0 where
  pub peers : Store
  pub log : List Log
  pub world : World

-- One round of the loop of `advertise`, at the given time of its `Observe`, which stores the address as
-- `text`, that is `ip.String()`.
unfoldable pub announce_on :
    (Bytes → Bytes) → Announcement → Bytes → ℕ → Joined → Announcing → Announcing
unfolding send_multicast send_broadcast observe
announce_on text a payload now i s =
    let first = send_multicast payload i s.world in
    let second = send_broadcast payload i first.1 in
    record {
      peers =
          if passed first.0 || passed second.0
          then observe s.peers a (text i.ipv4) now
          else s.peers;
      log = s.log ++ send_log (passed first.0) (passed second.0) i.interface.name;
      world = second.1;
    }

-- The loop; the clock gives the time of each round.
unfoldable pub announce_all :
    (Bytes → Bytes) → Announcement → Bytes → (ℕ → ℕ) → ℕ → List Joined → Announcing → Announcing
unfolding announce_on
announce_all text a payload clock k [] s = s
announce_all text a payload clock k (i ∷ is) s =
    announce_all text a payload clock (k + 1) is (announce_on text a payload (clock k) i s)

-- What the program is built with; `ip_text` is `String` of `net.IP`.
pub record Announcer : Type 0 where
  pub unicode : Unicode
  pub json : Json
  pub settings_json : ConfigJson
  pub system : System
  pub settings : Option Place
  pub cidr : Cidr
  pub ip_text : Bytes → Bytes
  pub key : Bytes

-- What the system gives one announcement: the host's name, random bytes, the interfaces and the times.
pub record Local : Type 0 where
  pub host : Option Bytes
  pub random : Option Bytes
  pub listed : Option (List Interface)
  pub now : ℕ
  pub clock : ℕ → ℕ

pub record Advertised : Type 0 where
  pub result : Result Failure (Unit {0})
  pub peers : Store
  pub joined : List ℕ
  pub log : List Log
  pub world : World

-- `MulticastInterfaces` fails where `net.Interfaces` does.
abbrev pub interfaces_of : Cidr → Option (List Interface) → Result Failure (List Joined)
interfaces_of D none = err interfaces_failed
interfaces_of D (some is) = ok (multicast_interfaces D is)

module _ (A : Announcer) (l : Local) where
  abbrev pub finished : List ℕ → Announcing → Advertised
  finished joined s = record {
    result = ok tt;
    peers = s.peers;
    joined = joined;
    log = s.log;
    world = s.world;
  }

  abbrev pub encoded :
      Announcement → List Joined → List ℕ → Announcing → Result Protocol.Error Bytes → Advertised
  encoded a locals joined s (ok payload) =
      finished joined (announce_all A.ip_text a payload l.clock 0 locals s)
  encoded a locals joined s (err e) = record {
    result = err (encode_failed e);
    peers = s.peers;
    joined = joined;
    log = s.log;
    world = s.world;
  }

  abbrev pub announcement_of : Config → Announcement
  announcement_of cfg = new_announcement A.unicode cfg l.now A.key

  abbrev pub with_joined : Config → List Joined → Store → (List ℕ × List Log) × World → Advertised
  with_joined cfg locals peers ((joined, log), w) =
      encoded (announcement_of cfg) locals joined (record { peers = peers; log = log; world = w })
        (encode A.unicode A.json (announcement_of cfg))

  abbrev pub with_interfaces :
      Config → Result Failure (List Joined) → Store → List ℕ → World → Advertised
  with_interfaces cfg (ok locals) peers joined w =
      with_joined cfg locals peers (join_groups locals joined w)
  with_interfaces cfg (err e) peers joined w = record {
    result = err e;
    peers = peers;
    joined = joined;
    log = [];
    world = w;
  }

  abbrev pub with_config : Store → List ℕ → Result LoadError Config × World → Advertised
  with_config peers joined (ok cfg, w) =
      with_interfaces cfg (interfaces_of A.cidr l.listed) peers joined w
  with_config peers joined (err e, w) = record {
    result = err config_failed;
    peers = peers;
    joined = joined;
    log = [];
    world = w;
  }

  unfoldable pub advertise_on : Store → List ℕ → World → Advertised
  unfolding load_or_create multicast_interfaces join_groups new_announcement encode announce_all
  advertise_on peers joined w =
      with_config peers joined
        (load_or_create A.settings_json A.system A.settings l.host l.random w)
