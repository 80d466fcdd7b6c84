-- ===== src/Network/Local/Keys.antt =====
-- Texts that stand once, in lists and as the keys of a map.
use lan_nickname.Base.Dict.{Dict, insert}
use lan_nickname.Base.{
  true, false, ◌||◌, List, [], ◌∷◌, ◌≡◌, refl, ◌∙◌, ap, arith, Bytes, All, member, equal, equal_iff,
}
use lan_nickname.Network.Local.{keys}
use lan_nickname.Store.{str_lt, sort, insert_sorted}

abbrev pub Distinct : List Bytes → Type 0
Distinct [] = Unit
Distinct (k ∷ ks) = (member k ks ≡ false) × Distinct ks

member-insert_sorted :
    (k j : Bytes) (ks : List Bytes)
    → member k (insert_sorted str_lt j ks) ≡ (equal k j || member k ks)
unfolding member insert_sorted
member-insert_sorted k j [] = refl
member-insert_sorted k j (i ∷ ks) = ground (arith, member-insert_sorted k j ks)

pub member-sort : (k : Bytes) (ks : List Bytes) → member k (sort str_lt ks) ≡ member k ks
unfolding member sort
member-sort k [] = refl
member-sort k (j ∷ ks) =
    member-insert_sorted k j (sort str_lt ks) ∙ ap (λ b. equal k j || b) (member-sort k ks)

members_of :
    (ks js : List Bytes)
    → ((k : Bytes) → member k js ≡ true → member k ks ≡ true)
    → All (λ k. member k ks ≡ true) js
unfolding member
members_of ks [] h = tt
members_of ks (j ∷ js) h =
    (h j (ground (arith, equal_iff j j)), members_of ks js (λ k m. h k (ground arith)))

pub own_members : (ks : List Bytes) → All (λ k. member k ks ≡ true) ks
own_members ks = members_of ks ks (λ k m. m)

insert_sorted-Distinct :
    (j : Bytes) (ks : List Bytes)
    → member j ks ≡ false
    → Distinct ks
    → Distinct (insert_sorted str_lt j ks)
unfolding insert_sorted member
insert_sorted-Distinct j [] new d = (refl, tt)
insert_sorted-Distinct j (i ∷ ks) new d =
    ground (
      arith,
      insert_sorted-Distinct j ks,
      member-insert_sorted i j ks,
      equal_iff i j,
      equal_iff j i,
    )

pub sort-Distinct : (ks : List Bytes) → Distinct ks → Distinct (sort str_lt ks)
unfolding sort
sort-Distinct [] d = tt
sort-Distinct (k ∷ ks) (new, d) =
    insert_sorted-Distinct k (sort str_lt ks) (member-sort k ks ∙ new) (sort-Distinct ks d)

pub member-keys-insert :
    (k j : Bytes) (v : Bytes) (d : Dict Bytes)
    → member k (keys (insert j v d)) ≡ (equal k j || member k (keys d))
unfolding member insert
member-keys-insert k j v [] = refl
member-keys-insert k j v ((i, w) ∷ d) =
    ground (arith, member-keys-insert k j v d, equal_iff i j, equal_iff k j, equal_iff k i)

pub insert-Distinct :
    (j : Bytes) (v : Bytes) (d : Dict Bytes) → Distinct (keys d) → Distinct (keys (insert j v d))
unfolding insert member
insert-Distinct j v [] u = (refl, tt)
insert-Distinct j v ((i, w) ∷ d) (new, u) =
    ground (arith, insert-Distinct j v d u, member-keys-insert i j v d, equal_iff i j)
