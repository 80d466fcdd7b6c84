-- ===== src/Store/Heard.antt =====
-- A store as what it promises: when each address of each machine was last heard of.
use lan_nickname.Base.{
  ℕ, ◌<◌, Bool, true, false, [], ◌∷◌, Option, none, some, ◌≡◌, refl, ◌∙◌, sym, subst, inl, inr,
  Bool-cases, Option-cases, arith, ltb, Bytes, is_empty, equal, equal_iff, All, if◌then◌else◌,
}
use lan_nickname.Base.Dict.{Dict, lookup, lookup-insert, NodupKeys, Entries}
use lan_nickname.Protocol.{Announcement}
use lan_nickname.Store.Invariant.{IsPeer, IsStore, prune_addresses-absent, prune-absent}
use lan_nickname.Store.{
  Peer, Store, new_peer, found_peer, renamed, identify, refresh, observe, prune_addresses, prune,
}

abbrev pub heard_in : Bytes → Option Peer → Option ℕ
heard_in address none = none
heard_in address (some p) = lookup address p.addresses

-- When the machine's address was last heard of.
unfoldable pub last_heard : Store → Bytes → Bytes → Option ℕ
unfolding lookup
last_heard s id address = heard_in address (lookup id s)

abbrev renamed_in : Announcement → Option Peer → Bool
renamed_in a none = false
renamed_in a (some p) = renamed p a

-- Whether the announcement gives a known machine another nickname or alias.
unfoldable pub renames : Store → Announcement → Bool
unfolding lookup renamed
renames s a = renamed_in a (lookup a.id s)

identify-lookup :
    (p : Peer) (a : Announcement) (y : Bytes)
    → lookup y (identify p a).addresses ≡ (if renamed p a then none else lookup y p.addresses)
unfolding identify lookup
identify-lookup p a y = elim (Bool-cases (renamed p a)) [
  | inl new ↦ rw new refl
  | inr old ↦ rw old refl
]

if_same : (b : Bool) (x : Option ℕ) → (if b then x else x) ≡ x
if_same true x = refl
if_same false x = refl

-- `Observe` sets the time of the address.
refresh-lookup :
    (p : Peer) (a : Announcement) (x : Bytes) (now : ℕ) (y : Bytes)
    → lookup y (refresh p a x now).addresses
      ≡ (if equal x y then some now else lookup y (identify p a).addresses)
unfolding refresh
refresh-lookup p a x now y = lookup-insert x y now (identify p a).addresses

found_peer-lookup :
    (s : Store) (a : Announcement) (y : Bytes)
    → lookup y (identify (found_peer a.id (lookup a.id s)) a).addresses
      ≡ (if renames s a then none else last_heard s a.id y)
unfolding last_heard renames found_peer
found_peer-lookup s a y = elim (Option-cases (lookup a.id s)) [
  | inl absent ↦
      rw absent (identify-lookup (new_peer a.id) a y ∙ if_same (renamed (new_peer a.id) a) none)
  | inr (p, e) ↦ rw e (identify-lookup p a y)
]

-- An observation sets the time of its address. A machine that was renamed loses its other addresses;
-- any other address of it, and every address of another machine, keeps its time.
pub last_heard-observe :
    (s : Store) (a : Announcement) (x : Bytes) (now : ℕ) (j y : Bytes)
    → last_heard (observe s a x now) j y ≡ (
        if equal a.id j
        then (if equal x y then some now else if renames s a then none else last_heard s a.id y)
        else last_heard s j y)
unfolding last_heard observe
last_heard-observe s a x now j y = elim (Bool-cases (equal a.id j)) [
  | inl same ↦ rw lookup-insert (
      rw same (
        refresh-lookup (found_peer a.id (lookup a.id s)) a x now y
        ∙ rw (found_peer-lookup s a y) refl))
  | inr other ↦ rw lookup-insert (rw other refl)
]

identify_names :
    (p : Peer) (a : Announcement)
    → ((identify p a).nickname ≡ a.nickname) × ((identify p a).alias_name ≡ a.alias_name)
unfolding identify
identify_names p a =
    ground (arith, equal_iff p.nickname a.nickname, equal_iff p.alias_name a.alias_name)

-- An observed machine has the announcement's names, group and key.
pub lookup-observe :
    (s : Store) (a : Announcement) (x : Bytes) (now : ℕ)
    → (p : Peer) × (lookup a.id (observe s a x now) ≡ some p)
      × (p.nickname ≡ a.nickname)
      × (p.alias_name ≡ a.alias_name)
      × (p.group ≡ a.group)
      × (p.host_key ≡ a.host_key)
unfolding observe
lookup-observe s a x now =
    let p = found_peer a.id (lookup a.id s) in
    let (names, aliases) = identify_names p a in
    let self : equal a.id a.id ≡ true = (equal_iff a.id a.id).1 refl in
    (
      refresh p a x now,
      rw lookup-insert (rw self refl),
      unfold refresh in names,
      unfold refresh in aliases,
      unfold refresh in refl,
      unfold refresh in refl,
    )

abbrev pub fresh : ℕ → Option ℕ → Option ℕ
fresh before none = none
fresh before (some t) = if ltb t before then none else some t

lookup-prune_addresses :
    (before : ℕ) (y : Bytes) (d : Dict ℕ)
    → NodupKeys d
    → lookup y (prune_addresses before d) ≡ fresh before (lookup y d)
unfolding prune_addresses lookup
lookup-prune_addresses before y [] u = refl
lookup-prune_addresses before y ((j, t) ∷ d) (new, u) = ground (
  arith,
  equal_iff j y,
  lookup-prune_addresses before y d u,
  prune_addresses-absent before j d new,
)

empty-lookup : (y : Bytes) (d : Dict ℕ) → is_empty d ≡ true → lookup y d ≡ none
unfolding lookup
empty-lookup y [] h = refl
empty-lookup y (e ∷ d) h = cc

prune-heard :
    (before : ℕ) (s : Store) (j y : Bytes)
    → NodupKeys s
    → Entries IsPeer s
    → last_heard (prune before s) j y ≡ fresh before (last_heard s j y)
unfolding last_heard prune
prune-heard before [] j y u h = refl
prune-heard before ((k, p) ∷ s) j y (new, u) (is, h) =
    let times = lookup-prune_addresses before y p.addresses is.once in
    elim (Bool-cases (equal k j)) [
      | inl same ↦ elim (Bool-cases (is_empty (prune_addresses before p.addresses))) [
        | inl gone ↦
            let absent : lookup j (prune before s) ≡ none =
              subst (λ x. lookup x (prune before s) ≡ none) ((equal_iff k j).0 same)
                (prune-absent before k s new) in
            rw (gone, same)
              (rw absent (sym (empty-lookup y (prune_addresses before p.addresses) gone) ∙ times))
        | inr left ↦ rw (left, same) times
      ]
      | inr other ↦ elim (Bool-cases (is_empty (prune_addresses before p.addresses))) [
        | inl gone ↦ rw (gone, other) (prune-heard before s j y u h)
        | inr left ↦ rw (left, other) (prune-heard before s j y u h)
      ]
    ]

-- After a pruning of a well-formed store exactly the times from the given one on are left.
pub last_heard-prune :
    (before : ℕ) (s : Store) (j y : Bytes)
    → IsStore s
    → last_heard (prune before s) j y ≡ fresh before (last_heard s j y)
last_heard-prune before s j y h = prune-heard before s j y h.keys h.entries

prune_addresses-All :
    (before : ℕ) (d : Dict ℕ) → All (λ (_, t). t < before) d → prune_addresses before d ≡ []
unfolding prune_addresses
prune_addresses-All before [] h = refl
prune_addresses-All before ((x, t) ∷ d) h = ground (arith, h.0, prune_addresses-All before d h.1)

-- A pruning past every recorded time leaves no machine.
pub prune-All :
    (before : ℕ) (s : Store)
    → All (λ (_, p). All (λ (_, t). t < before) p.addresses) s
    → prune before s ≡ []
unfolding prune
prune-All before [] h = refl
prune-All before ((k, p) ∷ s) h =
    rw (prune_addresses-All before p.addresses h.0) (prune-All before s h.1)
