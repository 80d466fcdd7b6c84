-- ===== src/Store/Order/Snapshot.antt =====
-- What comes first in a snapshot.
use mathlib.Core.List.{Perm}
use lan_nickname.Base.{
  ℕ, true, false, List, [], ◌∷◌, ◌≡◌, refl, sym, ap₂, ne_of_equal, inl, inr, Bool-cases, arith,
  Bytes, equal, equal_iff, All, All-map, subst, ◌∙◌,
}
use lan_nickname.Store.Order.{insert_sorted-All, sort-perm, str_lt-asym}
use lan_nickname.Store.{Peer, Store, str_lt, peer_lt, insert_sorted, sort, values, take_snapshot}

str_lt_irrefl : (a : Bytes) → str_lt a a ≡ false
unfolding str_lt
str_lt_irrefl [] = refl
str_lt_irrefl (x ∷ a) = ground (arith, str_lt_irrefl a)

-- `<=` is transitive and antisymmetric.
str_le_trans : (a b c : Bytes) → str_lt b a ≡ false → str_lt c b ≡ false → str_lt c a ≡ false
unfolding str_lt
str_le_trans [] b [] h k = refl
str_le_trans [] b (z ∷ c) h k = refl
str_le_trans (x ∷ a) [] c h k = cc
str_le_trans (x ∷ a) (y ∷ b) [] h k = cc
str_le_trans (x ∷ a) (y ∷ b) (z ∷ c) h k = ground (arith, str_le_trans a b c)

str_le_antisymm : (a b : Bytes) → str_lt a b ≡ false → str_lt b a ≡ false → a ≡ b
unfolding str_lt
str_le_antisymm [] [] h k = refl
str_le_antisymm [] (y ∷ b) h k = cc
str_le_antisymm (x ∷ a) [] h k = cc
str_le_antisymm (x ∷ a) (y ∷ b) h k =
    let head : x ≡ y = ground arith in
    let ha : str_lt a b ≡ false = ground arith in
    let hb : str_lt b a ≡ false = ground arith in
    ap₂ (λ c s. c ∷ s) head (str_le_antisymm a b ha hb)

-- The alias is not greater, and with the same alias the identifier is not.
pub record IsBefore (p q : Peer) : Type 0 where
  pub by_alias : str_lt q.alias_name p.alias_name ≡ false
  pub by_id : p.alias_name ≡ q.alias_name → str_lt q.id p.id ≡ false

IsBefore-trans : (p q r : Peer) → IsBefore p q → IsBefore q r → IsBefore p r
IsBefore-trans p q r h k = record {
  by_alias = str_le_trans p.alias_name q.alias_name r.alias_name h.by_alias k.by_alias;
  by_id = λ e.
      let same : p.alias_name ≡ q.alias_name =
        str_le_antisymm p.alias_name q.alias_name
          (subst (λ a. str_lt a q.alias_name ≡ false) (sym e) k.by_alias) h.by_alias in
      str_le_trans p.id q.id r.id (h.by_id same) (k.by_id (sym same ∙ e));
}

not_less-IsBefore : (p q : Peer) → peer_lt q p ≡ false → IsBefore p q
unfolding peer_lt
not_less-IsBefore p q h = elim (Bool-cases (equal q.alias_name p.alias_name)) [
  | inl same ↦
      let e = (equal_iff q.alias_name p.alias_name).0 same in
      record {
        by_alias = subst (λ a. str_lt a p.alias_name ≡ false) (sym e) (str_lt_irrefl p.alias_name);
        by_id = λ _. rw same at h;
      }
  | inr other ↦ record {
    by_alias = rw other at h;
    by_id = λ e. absurd (ne_of_equal q.alias_name p.alias_name other (sym e));
  }
]

less-IsBefore : (p q : Peer) → peer_lt p q ≡ true → IsBefore p q
unfolding peer_lt
less-IsBefore p q h = elim (Bool-cases (equal p.alias_name q.alias_name)) [
  | inl same ↦
      let e = (equal_iff p.alias_name q.alias_name).0 same in
      record {
        by_alias = subst (λ a. str_lt q.alias_name a ≡ false) (sym e) (str_lt_irrefl q.alias_name);
        by_id = λ _. str_lt-asym p.id q.id (rw same at h);
      }
  | inr other ↦ record {
    by_alias = str_lt-asym p.alias_name q.alias_name (rw other at h);
    by_id = λ e. absurd (ne_of_equal p.alias_name q.alias_name other e);
  }
]

-- Each comes before all that follow.
abbrev pub InOrder : List Peer → Type 0
InOrder [] = Unit
InOrder (p ∷ ps) = All (IsBefore p) ps × InOrder ps

insert_sorted-InOrder :
    (p : Peer) (ps : List Peer) → InOrder ps → InOrder (insert_sorted peer_lt p ps)
unfolding insert_sorted
insert_sorted-InOrder p [] h = (tt, tt)
insert_sorted-InOrder p (q ∷ ps) h = elim (Bool-cases (peer_lt q p)) [
  | inl less ↦ rw less (
    insert_sorted-All peer_lt (IsBefore q) p ps (less-IsBefore q p less) h.0,
    insert_sorted-InOrder p ps h.1,
  )
  | inr not_less ↦
      let first = not_less-IsBefore p q not_less in
      rw not_less (((first, All-map (λ r k. IsBefore-trans p q r first k) ps h.0), h))
]

sort-InOrder : (ps : List Peer) → InOrder (sort peer_lt ps)
unfolding sort
sort-InOrder [] = tt
sort-InOrder (p ∷ ps) = insert_sorted-InOrder p (sort peer_lt ps) (sort-InOrder ps)

-- A snapshot lists the store's peers, each as often as it stands there, and each before all those with a
-- greater alias, and before those with the same alias and a greater identifier.
pub take_snapshot-InOrder :
    (s : Store) (now : ℕ)
    → InOrder (take_snapshot s now).peers × Perm (take_snapshot s now).peers (values s)
unfolding take_snapshot
take_snapshot-InOrder s now = (sort-InOrder (values s), sort-perm peer_lt (values s))
