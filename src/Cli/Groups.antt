-- ===== src/Cli/Groups.antt =====
-- The groups of the map of active machines.
use mathlib.Core.List.Perm
use mathlib.Core.List.{Perm, perm_middle}
use lan_nickname.Base.{
  ℕ, ◌+◌, Bool, true, false, not, ◌||◌, List, [], ◌∷◌, ◌++◌, ◌≡◌, ◌≢◌, refl, ap, inl, inr,
  Bool-cases, arith, ◌==◌, equal, equal_iff, member, All, All-map, if◌then◌else◌, Bytes, is_empty,
}
use lan_nickname.Cli.{grouped, named_groups, group_names}
use lan_nickname.Store.{Peer, str_lt, insert_sorted, sort}

-- The peers in the order of their printing: group by group.
unfoldable pub listed : List Bytes → List Peer → List Peer
unfolding grouped
listed [] ps = []
listed (g ∷ gs) ps = grouped g ps ++ listed gs ps

unfoldable times : Bytes → List Bytes → ℕ
unfolding equal
times k [] = 0
times k (g ∷ gs) = let rest = times k gs in if equal k g then 1 + rest else rest

unfoldable is_named : Bytes → List Peer → Bool
unfolding equal
is_named k [] = false
is_named k (p ∷ ps) = equal p.group k || is_named k ps

listed-absent :
    (p : Peer) (gs : List Bytes) (ps : List Peer)
    → times p.group gs ≡ 0
    → listed gs (p ∷ ps) ≡ listed gs ps
unfolding listed grouped times
listed-absent p [] ps h = refl
listed-absent p (g ∷ gs) ps h = elim (Bool-cases (equal p.group g)) [
  | inl e ↦ absurd (counted (times p.group gs) (rw e at h))
  | inr e ↦ rw e (ap (λ x. grouped g ps ++ x) (listed-absent p gs ps (rw e at h)))
]
  where
    counted : (n : ℕ) → 1 + n ≢ 0
    counted n = omega arith

listed-cons :
    (p : Peer) (gs : List Bytes) (ps : List Peer)
    → times p.group gs ≡ 1
    → Perm (listed gs (p ∷ ps)) (p ∷ listed gs ps)
unfolding listed grouped times
listed-cons p [] ps h = ground (arith, h)
listed-cons p (g ∷ gs) ps h = elim (Bool-cases (equal p.group g)) [
  | inl e ↦
      let rest : times p.group gs ≡ 0 = one_more (times p.group gs) (rw e at h) in
      rw e (rw (listed-absent p gs ps rest) (Perm.refl _))
  | inr e ↦ rw e (
      Perm.trans (Perm.append_left (grouped g ps) (listed-cons p gs ps (rw e at h)))
        (perm_middle (grouped g ps) (listed gs ps)))
]
  where
    one_more : (n : ℕ) → 1 + n ≡ 1 → n ≡ 0
    one_more n e = omega arith

listed-perm :
    (gs : List Bytes) (ps : List Peer) → All (λ p. times p.group gs ≡ 1) ps → Perm (listed gs ps) ps
unfolding listed grouped
listed-perm gs [] h = nothing gs
  where
    nothing : (gs : List Bytes) → Perm (listed gs []) []
    nothing [] = Perm.refl []
    nothing (g ∷ gs) = nothing gs
listed-perm gs (p ∷ ps) h =
    Perm.trans (listed-cons p gs ps h.0) (Perm.cons p (listed-perm gs ps h.1))

times-insert_sorted :
    (k : Bytes) (g : Bytes) (gs : List Bytes)
    → times k (insert_sorted str_lt g gs) ≡ times k (g ∷ gs)
unfolding times insert_sorted
times-insert_sorted k g [] = refl
times-insert_sorted k g (h ∷ gs) = ground (arith, times-insert_sorted k g gs)

times-sort : (k : Bytes) (gs : List Bytes) → times k (sort str_lt gs) ≡ times k gs
unfolding times sort
times-sort k [] = refl
times-sort k (g ∷ gs) = ground (arith, times-sort k gs, times-insert_sorted k g (sort str_lt gs))

times-append : (k : Bytes) (gs hs : List Bytes) → times k (gs ++ hs) ≡ times k gs + times k hs
unfolding times
times-append k [] hs = omega arith
times-append k (g ∷ gs) hs = ground (arith, times-append k gs hs)

member-times : (k : Bytes) (gs : List Bytes) → member k gs ≡ not (times k gs == 0)
unfolding member times
member-times k [] = refl
member-times k (g ∷ gs) = ground (arith, member-times k gs)

-- How often a group is among the names.
times-named_groups :
    (k : Bytes) (ps : List Peer)
    → times k (named_groups ps) ≡ (if is_empty k then 0 else if is_named k ps then 1 else 0)
unfolding times named_groups is_named
times-named_groups k [] = ground arith
times-named_groups k (p ∷ ps) = ground (
  arith,
  equal_iff k p.group,
  equal_iff p.group k,
  member-times p.group (named_groups ps),
  times-named_groups k ps,
  times-named_groups p.group ps,
)

grouped-is_empty : (k : Bytes) (ps : List Peer) → is_empty (grouped k ps) ≡ not (is_named k ps)
unfolding grouped is_named
grouped-is_empty k [] = refl
grouped-is_empty k (p ∷ ps) = ground (arith, grouped-is_empty k ps)

times-no_group : (c : ℕ) (k : Bytes) (b : Bool) → times (c ∷ k) (if b then [] else [] ∷ []) ≡ 0
unfolding times
times-no_group c k true = refl
times-no_group c k false = refl

times-group_names :
    (k : Bytes) (all : List Peer) → is_named k all ≡ true → times k (group_names all) ≡ 1
unfolding group_names times
times-group_names [] all h =
    rw (times-append, times-sort, times-named_groups, grouped-is_empty, h) refl
times-group_names (c ∷ k) all h =
    rw (times-append, times-sort, times-named_groups, h) (ap (◌+◌ 1) (times-no_group c k _))

named_in : (ps : List Peer) → All (λ p. is_named p.group ps ≡ true) ps
unfolding is_named
named_in [] = tt
named_in (p ∷ ps) = (
  rw ((equal_iff p.group p.group).1 refl) refl,
  All-map (λ q h. rw h (either (equal p.group q.group))) ps (named_in ps),
)
  where
    either : (b : Bool) → (b || true) ≡ true
    either b = ground arith

-- The groups of the printed map hold each of the machines exactly once, whatever their groups are.
pub listed-group_names : (ps : List Peer) → Perm (listed (group_names ps) ps) ps
listed-group_names ps =
    listed-perm (group_names ps) ps (All-map (λ p. times-group_names p.group ps) ps (named_in ps))
