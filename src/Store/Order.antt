-- ===== src/Store/Order.antt =====
-- The order of strings, and what sorting keeps.
pub mod Snapshot
use mathlib.Core.List.Perm
use mathlib.Core.List.{Perm}
use lan_nickname.Base.{
  ℕ, Bool, true, false, List, [], ◌∷◌, ◌≡◌, refl, inl, inr, Bool-cases, arith, Bytes, equal_iff,
  All,
}
use lan_nickname.Store.{Peer, Store, str_lt, peer_lt, insert_sorted, sort, values, take_snapshot}

module _ {ℓ} {A : Type ℓ} (less : A → A → Bool) where
  -- No item comes before its predecessor in the order.
  abbrev pub Ordered : List A → Type 0
  Ordered [] = Unit
  Ordered (p ∷ []) = Unit
  Ordered (p ∷ q ∷ ps) = (less q p ≡ false) × Ordered (q ∷ ps)

  abbrev pub IsAsymmetric : Type ℓ
  IsAsymmetric = (p q : A) → less p q ≡ true → less q p ≡ false

  insert_sorted-perm : (p : A) (ps : List A) → Perm (insert_sorted less p ps) (p ∷ ps)
  unfolding insert_sorted
  insert_sorted-perm p [] = Perm.refl (p ∷ [])
  insert_sorted-perm p (q ∷ ps) = elim (Bool-cases (less q p)) [
    | inl e ↦ rw e (Perm.trans (Perm.cons q (insert_sorted-perm p ps)) (Perm.swap p q ps))
    | inr e ↦ rw e (Perm.refl (p ∷ q ∷ ps))
  ]

  pub sort-perm : (ps : List A) → Perm (sort less ps) ps
  unfolding sort
  sort-perm [] = Perm.refl []
  sort-perm (p ∷ ps) = Perm.trans (insert_sorted-perm p (sort less ps)) (Perm.cons p (sort-perm ps))

  insert_sorted-Ordered :
      IsAsymmetric → (p : A) (ps : List A) → Ordered ps → Ordered (insert_sorted less p ps)
  unfolding insert_sorted
  insert_sorted-Ordered asym p [] h = tt
  insert_sorted-Ordered asym p (q ∷ []) h = ground (arith, asym q p)
  insert_sorted-Ordered asym p (q ∷ r ∷ ps) h =
      ground (arith, asym q p, asym r p, insert_sorted-Ordered asym p (r ∷ ps) h.1)

  pub sort-Ordered : IsAsymmetric → (ps : List A) → Ordered (sort less ps)
  unfolding sort
  sort-Ordered asym [] = tt
  sort-Ordered asym (p ∷ ps) = insert_sorted-Ordered asym p (sort less ps) (sort-Ordered asym ps)

  module _ {κ} (P : A → Type κ) where
    pub insert_sorted-All : (p : A) (ps : List A) → P p → All P ps → All P (insert_sorted less p ps)
    unfolding insert_sorted
    insert_sorted-All p [] h hs = (h, tt)
    insert_sorted-All p (q ∷ ps) h hs = ground (arith, insert_sorted-All p ps h hs.1)

    pub sort-All : (ps : List A) → All P ps → All P (sort less ps)
    unfolding sort
    sort-All [] h = tt
    sort-All (p ∷ ps) h = insert_sorted-All p (sort less ps) h.0 (sort-All ps h.1)

pub str_lt-asym : (a b : Bytes) → str_lt a b ≡ true → str_lt b a ≡ false
unfolding str_lt
str_lt-asym [] [] h = refl
str_lt-asym [] (y ∷ b) h = refl
str_lt-asym (x ∷ a) [] h = cc
str_lt-asym (x ∷ a) (y ∷ b) h = ground (arith, str_lt-asym a b)
