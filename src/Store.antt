-- ===== src/Store.antt =====
-- internal/store/store.go: the peers that were heard of. The lock makes each operation one step. A time
-- is a number of nanoseconds; a peer in the map is a value, since nothing else keeps its pointer.
pub mod Invariant
pub mod Heard
pub mod Order
pub mod Cache
use lan_nickname.Base.{
  ℕ, ◌-◌, Bool, true, false, ◌&&◌, ◌||◌, not, List, [], ◌∷◌, Option, none, some, ltb, equal,
  if◌then◌else◌, Bytes, is_empty, map,
}
use lan_nickname.Base.Dict.{Dict, lookup, insert}
use lan_nickname.Protocol.{Announcement}

pub record Peer : Type 0 where
  pub id : Bytes
  pub nickname : Bytes
  pub alias_name : Bytes
  pub group : Bytes
  pub host_key : Bytes
  pub addresses : Dict ℕ

abbrev pub Store : Type 0
Store = Dict Peer

pub record Snapshot : Type 0 where
  pub updated_at : ℕ
  pub peers : List Peer

abbrev pub new_store : Store
new_store = []

abbrev pub new_peer : Bytes → Peer
new_peer id = record {
  id = id;
  nickname = [];
  alias_name = [];
  group = [];
  host_key = [];
  addresses = [];
}

-- The peer of the announcement's identifier, or a new one.
unfoldable pub found_peer : Bytes → Option Peer → Peer
found_peer id none = new_peer id
found_peer id (some p) = p

-- `peer.Nickname != announcement.Nickname || peer.Alias != announcement.Alias`
unfoldable pub renamed : Peer → Announcement → Bool
unfolding equal
renamed p a = not (equal p.nickname a.nickname) || not (equal p.alias_name a.alias_name)

unfoldable pub identify : Peer → Announcement → Peer
unfolding renamed
identify p a =
    if renamed p a
    then record p { nickname = a.nickname; alias_name = a.alias_name; addresses = [] }
    else p

unfoldable pub refresh : Peer → Announcement → Bytes → ℕ → Peer
unfolding identify insert
refresh p a address now =
    let q = identify p a in
    record q { group = a.group; host_key = a.host_key; addresses = insert address now q.addresses }

-- `address` is the text of the IP address.
unfoldable pub observe : Store → Announcement → Bytes → ℕ → Store
unfolding found_peer refresh lookup insert
observe s a address now = insert a.id (refresh (found_peer a.id (lookup a.id s)) a address now) s

unfoldable pub prune_addresses : ℕ → Dict ℕ → Dict ℕ
prune_addresses before [] = []
prune_addresses before ((address, last_seen) ∷ d) =
    let rest = prune_addresses before d in
    if ltb last_seen before then rest else (address, last_seen) ∷ rest

unfoldable pub prune : ℕ → Store → Store
unfolding prune_addresses
prune before [] = []
prune before ((id, p) ∷ s) =
    let rest = prune before s in
    let kept = prune_addresses before p.addresses in
    if is_empty kept then rest else (id, record p { addresses = kept }) ∷ rest

-- `<` on strings.
unfoldable pub str_lt : Bytes → Bytes → Bool
str_lt [] [] = false
str_lt [] (y ∷ b) = true
str_lt (x ∷ a) [] = false
str_lt (x ∷ a) (y ∷ b) = ltb x y || (not (ltb y x) && str_lt a b)

-- The order of a snapshot.
unfoldable pub peer_lt : Peer → Peer → Bool
unfolding str_lt equal
peer_lt p q =
    if equal p.alias_name q.alias_name then str_lt p.id q.id else str_lt p.alias_name q.alias_name

-- `sort.Slice` by a strict order.
module _ {ℓ} {A : Type ℓ} (less : A → A → Bool) where
  unfoldable pub insert_sorted : A → List A → List A
  insert_sorted p [] = p ∷ []
  insert_sorted p (q ∷ ps) = if less q p then q ∷ insert_sorted p ps else p ∷ q ∷ ps

  unfoldable pub sort : List A → List A
  unfolding insert_sorted
  sort [] = []
  sort (p ∷ ps) = insert_sorted p (sort ps)

abbrev pub values : Store → List Peer
values = map (λ (_, p). p)

unfoldable pub take_snapshot : Store → ℕ → Snapshot
unfolding sort peer_lt
take_snapshot s now = record { updated_at = now; peers = sort peer_lt (values s) }

-- The entries of a cache file that `Load` passes over.
unfoldable pub unusable : Peer → Bool
unusable p = is_empty p.id || is_empty p.alias_name || is_empty p.addresses

-- The loop of `Load`, over the peers that the file's JSON holds.
unfoldable pub load_peers : List Peer → Store → Store
unfolding unusable insert
load_peers [] s = s
load_peers (p ∷ ps) s = load_peers ps (if unusable p then s else insert p.id p s)

-- `ReadSnapshot` behind the reading of the file.
unfoldable pub read_snapshot : List Peer → ℕ → ℕ → Snapshot
unfolding load_peers prune take_snapshot
read_snapshot cached ttl now = take_snapshot (prune (now - ttl) (load_peers cached new_store)) now
