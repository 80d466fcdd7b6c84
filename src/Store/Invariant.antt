-- ===== src/Store/Invariant.antt =====
-- The well-formedness of a store.
use lan_nickname.Base.{
  ℕ, false, List, [], ◌∷◌, none, ◌≡◌, refl, inl, inr, Bool-cases, Option-cases, arith, Bytes,
  is_empty, All, if◌then◌else◌,
}
use lan_nickname.Base.Dict.{
  Dict, lookup, insert, NodupKeys, insert-NodupKeys, Entries, lookup-Entries, insert-Entries,
}
use lan_nickname.Protocol.{Announcement}
use lan_nickname.Store.{
  Peer, Store, found_peer, renamed, identify, refresh, observe, prune_addresses, prune, load_peers,
  unusable,
}

-- An entry stands under its peer's identifier, and lists each address once.
pub record IsPeer (k : Bytes) (p : Peer) : Type 0 where
  pub keyed : p.id ≡ k
  pub heard : is_empty p.addresses ≡ false
  pub once : NodupKeys p.addresses

pub record IsStore (s : Store) : Type 0 where
  pub keys : NodupKeys s
  pub entries : Entries IsPeer s

insert-nonempty : (k : Bytes) (v : ℕ) (d : Dict ℕ) → is_empty (insert k v d) ≡ false
unfolding insert
insert-nonempty k v [] = refl
insert-nonempty k v ((j, w) ∷ d) = ground arith

-- What `Observe` needs of the peer that it finds.
record IsFound (k : Bytes) (p : Peer) : Type 0 where
  keyed : p.id ≡ k
  once : NodupKeys p.addresses

identify-IsFound :
    {k : Bytes} (p : Peer) (a : Announcement) → IsFound k p → IsFound k (identify p a)
unfolding identify
identify-IsFound p a f = elim (Bool-cases (renamed p a)) [
  | inl new ↦ rw new (record { keyed = f.keyed; once = tt })
  | inr old ↦ rw old f
]

refresh-IsPeer :
    {k : Bytes} (p : Peer) (a : Announcement) (address : Bytes) (now : ℕ)
    → IsFound k p
    → IsPeer k (refresh p a address now)
unfolding refresh
refresh-IsPeer p a address now f =
    let g = identify-IsFound p a f in
    record {
      keyed = g.keyed;
      heard = insert-nonempty address now (identify p a).addresses;
      once = insert-NodupKeys address now (identify p a).addresses g.once;
    }

found_peer-IsFound :
    (k : Bytes) (s : Store) → Entries IsPeer s → IsFound k (found_peer k (lookup k s))
unfolding found_peer
found_peer-IsFound k s h = elim (Option-cases (lookup k s)) [
  | inl absent ↦ rw absent (record { keyed = refl; once = tt })
  | inr (p, e) ↦
      let is = lookup-Entries IsPeer k s h e in rw e (record { keyed = is.keyed; once = is.once })
]

-- An observation keeps a store well-formed.
pub observe-IsStore :
    (s : Store) (a : Announcement) (address : Bytes) (now : ℕ)
    → IsStore s
    → IsStore (observe s a address now)
unfolding observe
observe-IsStore s a address now h =
    let is =
      refresh-IsPeer (found_peer a.id (lookup a.id s)) a address now
        (found_peer-IsFound a.id s h.entries) in
    record {
      keys = insert-NodupKeys a.id _ s h.keys;
      entries = insert-Entries IsPeer a.id _ s is h.entries;
    }

-- Pruning keeps what is absent absent.
pub prune_addresses-absent :
    (before : ℕ) (k : Bytes) (d : Dict ℕ)
    → lookup k d ≡ none
    → lookup k (prune_addresses before d) ≡ none
unfolding prune_addresses lookup
prune_addresses-absent before k [] h = refl
prune_addresses-absent before k ((j, t) ∷ d) h = ground (arith, prune_addresses-absent before k d)

prune_addresses-NodupKeys :
    (before : ℕ) (d : Dict ℕ) → NodupKeys d → NodupKeys (prune_addresses before d)
unfolding prune_addresses
prune_addresses-NodupKeys before [] h = tt
prune_addresses-NodupKeys before ((j, t) ∷ d) (fresh, u) =
    ground (arith, prune_addresses-NodupKeys before d u, prune_addresses-absent before j d fresh)

pub prune-absent :
    (before : ℕ) (k : Bytes) (s : Store) → lookup k s ≡ none → lookup k (prune before s) ≡ none
unfolding prune lookup
prune-absent before k [] h = refl
prune-absent before k ((j, p) ∷ s) h = ground (arith, prune-absent before k s)

prune-NodupKeys : (before : ℕ) (s : Store) → NodupKeys s → NodupKeys (prune before s)
unfolding prune
prune-NodupKeys before [] h = tt
prune-NodupKeys before ((j, p) ∷ s) (fresh, u) =
    ground (arith, prune-NodupKeys before s u, prune-absent before j s fresh)

prune-Entries : (before : ℕ) (s : Store) → Entries IsPeer s → Entries IsPeer (prune before s)
unfolding prune
prune-Entries before [] h = tt
prune-Entries before ((j, p) ∷ s) (is, h) =
    elim (Bool-cases (is_empty (prune_addresses before p.addresses))) [
      | inl gone ↦ rw gone (prune-Entries before s h)
      | inr left ↦ rw left (
        record {
          keyed = is.keyed;
          heard = left;
          once = prune_addresses-NodupKeys before p.addresses is.once;
        },
        prune-Entries before s h,
      )
    ]

-- A pruning keeps a store well-formed: no machine stays without an address.
pub prune-IsStore : (before : ℕ) (s : Store) → IsStore s → IsStore (prune before s)
prune-IsStore before s h = record {
  keys = prune-NodupKeys before s h.keys;
  entries = prune-Entries before s h.entries;
}

load_peer-IsStore :
    (p : Peer) (s : Store)
    → NodupKeys p.addresses
    → IsStore s
    → IsStore (if unusable p then s else insert p.id p s)
unfolding unusable
load_peer-IsStore p s u h = elim (Bool-cases (unusable p)) [
  | inl bad ↦ rw bad h
  | inr good ↦ rw good (record {
    keys = insert-NodupKeys p.id p s h.keys;
    entries =
        insert-Entries IsPeer p.id p s (record { keyed = refl; heard = ground arith; once = u })
          h.entries;
  })
]

-- What `Load` adds to a well-formed store leaves it well-formed, whatever the cache file holds, if each
-- address stands once in a peer, as JSON objects become maps.
pub load_peers-IsStore :
    (ps : List Peer) (s : Store)
    → All (λ p. NodupKeys p.addresses) ps
    → IsStore s
    → IsStore (load_peers ps s)
unfolding load_peers
load_peers-IsStore [] s u h = h
load_peers-IsStore (p ∷ ps) s u h =
    load_peers-IsStore ps (if unusable p then s else insert p.id p s) u.1
      (load_peer-IsStore p s u.0 h)
