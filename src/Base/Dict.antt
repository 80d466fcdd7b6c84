-- ===== src/Base/Dict.antt =====
-- Go maps with string keys, as association lists in any order. A write replaces the entry of its key.
use mathlib.Core.Path.{◌≡◌, refl, subst}
use mathlib.Core.List.{List, [], ◌∷◌}
use mathlib.Core.Option.{Option, none, some, some-injective}
use mathlib.Core.Logic.{inl, inr}
use native.Mathlib.Omega.{arith}
use lan_nickname.Base.Tests.{if◌then◌else◌, Bool-cases}
use lan_nickname.Base.Lists.{Bytes, equal, equal_iff}

abbrev pub Dict {ℓ} : Type ℓ → Type ℓ
Dict V = List (Bytes × V)

module _ {ℓ} {V : Type ℓ} where
  unfoldable pub lookup : Bytes → Dict V → Option V
  lookup k [] = none
  lookup k ((j, v) ∷ d) = if equal j k then some v else lookup k d

  unfoldable pub insert : Bytes → V → Dict V → Dict V
  insert k v [] = (k, v) ∷ []
  insert k v ((j, w) ∷ d) = if equal j k then (k, v) ∷ d else (j, w) ∷ insert k v d

  unfoldable pub erase : Bytes → Dict V → Dict V
  erase k [] = []
  erase k ((j, v) ∷ d) = let rest = erase k d in if equal j k then rest else (j, v) ∷ rest

  pub lookup-erase :
      (k j : Bytes) (d : Dict V) → lookup j (erase k d) ≡ (if equal k j then none else lookup j d)
  unfolding lookup erase
  lookup-erase k j [] = ground arith
  lookup-erase k j ((i, w) ∷ d) =
      ground (arith, equal_iff k j, equal_iff i k, equal_iff i j, lookup-erase k j d)

  -- No key stands twice.
  abbrev pub NodupKeys : Dict V → Type ℓ
  NodupKeys [] = Unit
  NodupKeys ((k, _) ∷ d) = (lookup k d ≡ none) × NodupKeys d

  pub lookup-insert :
      (k j : Bytes) (v : V) (d : Dict V)
      → lookup j (insert k v d) ≡ (if equal k j then some v else lookup j d)
  unfolding lookup insert
  lookup-insert k j v [] = refl
  lookup-insert k j v ((i, w) ∷ d) =
      ground (arith, equal_iff k j, equal_iff i k, equal_iff i j, lookup-insert k j v d)

  pub insert-NodupKeys : (k : Bytes) (v : V) (d : Dict V) → NodupKeys d → NodupKeys (insert k v d)
  unfolding insert lookup
  insert-NodupKeys k v [] _ = (refl, tt)
  insert-NodupKeys k v ((j, w) ∷ d) (fresh, u) =
      ground (arith, insert-NodupKeys k v d u, lookup-insert k j v d, equal_iff j k, equal_iff k j)

  -- A property of every entry.
  module _ {κ} (P : Bytes → V → Type κ) where
    abbrev pub Entries : Dict V → Type κ
    Entries [] = Unit
    Entries ((k, v) ∷ d) = P k v × Entries d

    pub lookup-Entries : (k : Bytes) (d : Dict V) {v : V} → Entries d → lookup k d ≡ some v → P k v
    unfolding lookup
    lookup-Entries k [] h e = cc
    lookup-Entries k ((j, w) ∷ d) h e = elim (Bool-cases (equal j k)) [
      | inl same ↦
          let value = some-injective w _ (rw same at e) in
          let key = (equal_iff j k).0 same in subst (P k) value (subst (λ x. P x w) key h.0)
      | inr other ↦ lookup-Entries k d h.1 (rw other at e)
    ]

    pub insert-Entries :
        (k : Bytes) (v : V) (d : Dict V) → P k v → Entries d → Entries (insert k v d)
    unfolding insert
    insert-Entries k v [] p h = (p, tt)
    insert-Entries k v ((j, w) ∷ d) p h = ground (arith, insert-Entries k v d p h.1)
