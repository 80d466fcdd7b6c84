-- ===== src/Text/Trim.antt =====
-- `strings.Trim`, `TrimLeft` and `TrimRight`, over a test of the items to cut.
use lan_nickname.Base.{
  Bool, true, false, List, [], ◌∷◌, ◌++◌, ◌≡◌, refl, ap, ◌∙◌, inl, inr, arith, if◌then◌else◌,
  Bool-cases, All, is_empty, ◌&&◌, append_assoc,
}

module _ {ℓ} {A : Type ℓ} (cut : A → Bool) where
  unfoldable pub trim_left : List A → List A
  trim_left [] = []
  trim_left (c ∷ s) = let rest = trim_left s in if cut c then rest else c ∷ s

  abbrev keep : A → List A → List A
  keep c rest = if is_empty rest && cut c then [] else c ∷ rest

  unfoldable pub trim_right : List A → List A
  trim_right [] = []
  trim_right (c ∷ s) = keep c (trim_right s)

  unfoldable pub trim : List A → List A
  unfolding trim_left trim_right
  trim s = trim_left (trim_right s)

module _ {ℓ} {A : Type ℓ} (cut : A → Bool) where
  pub trim_right-append_cut :
      (s : List A) (c : A) → cut c ≡ true → trim_right cut (s ++ c ∷ []) ≡ trim_right cut s
  unfolding trim_right
  trim_right-append_cut [] c h = rw h refl
  trim_right-append_cut (d ∷ s) c h = ap (keep cut d) (trim_right-append_cut s c h)

  pub trim_right_idem : (s : List A) → trim_right cut (trim_right cut s) ≡ trim_right cut s
  unfolding trim_right
  trim_right_idem [] = refl
  trim_right_idem (c ∷ s) = ground (arith, trim_right_idem s)

  pub trim_left_idem : (s : List A) → trim_left cut (trim_left cut s) ≡ trim_left cut s
  unfolding trim_left
  trim_left_idem [] = refl
  trim_left_idem (c ∷ s) = ground (arith, trim_left_idem s)

  -- Cutting at one end keeps the other end cut.
  pub trim_right-trim_left :
      (s : List A) → trim_right cut s ≡ s → trim_right cut (trim_left cut s) ≡ trim_left cut s
  unfolding trim_right trim_left
  trim_right-trim_left [] h = refl
  trim_right-trim_left (c ∷ s) h = ground (arith, trim_right-trim_left s)

  pub trim_idem : (s : List A) → trim cut (trim cut s) ≡ trim cut s
  unfolding trim
  trim_idem s =
      rw (trim_right-trim_left (trim_right cut s) (trim_right_idem s))
        (trim_left_idem (trim_right cut s))

  pub trim_left-cons_cut :
      (c : A) (s : List A) → cut c ≡ true → trim_left cut (c ∷ s) ≡ trim_left cut s
  unfolding trim_left
  trim_left-cons_cut c s h = rw h refl

  pub trim-cons_cut : (c : A) (s : List A) → cut c ≡ true → trim cut (c ∷ s) ≡ trim cut s
  unfolding trim
  trim-cons_cut c s h = ground (arith, trim_left-cons_cut c (trim_right cut s) h)

  pub trim-append_cut : (s : List A) (c : A) → cut c ≡ true → trim cut (s ++ c ∷ []) ≡ trim cut s
  unfolding trim
  trim-append_cut s c h = rw (trim_right-append_cut s c h) refl

  trim_left_suffix : (s : List A) → (a : List A) × (s ≡ a ++ trim_left cut s)
  unfolding trim_left
  trim_left_suffix [] = ([], refl)
  trim_left_suffix (c ∷ s) = elim (Bool-cases (cut c)) [
    | inl e ↦ let (a, p) = trim_left_suffix s in (c ∷ a, rw e (ap (◌∷◌ c) p))
    | inr e ↦ ([], rw e refl)
  ]

  pub trim_right_prefix : (s : List A) → (b : List A) × (s ≡ trim_right cut s ++ b)
  unfolding trim_right
  trim_right_prefix [] = ([], refl)
  trim_right_prefix (c ∷ s) = elim (Bool-cases (is_empty (trim_right cut s) && cut c)) [
    | inl e ↦ (c ∷ s, rw e refl)
    | inr e ↦ let (b, p) = trim_right_prefix s in (b, rw e (ap (◌∷◌ c) p))
  ]

  -- Nothing to cut.
  trim_left_none : (s : List A) → All (λ c. cut c ≡ false) s → trim_left cut s ≡ s
  unfolding trim_left
  trim_left_none [] h = refl
  trim_left_none (c ∷ s) h = rw (h.0) refl

  trim_right_none : (s : List A) → All (λ c. cut c ≡ false) s → trim_right cut s ≡ s
  unfolding trim_right
  trim_right_none [] h = refl
  trim_right_none (c ∷ s) h = ground (arith, h.0, trim_right_none s h.1)

  pub trim_none : (s : List A) → All (λ c. cut c ≡ false) s → trim cut s ≡ s
  unfolding trim
  trim_none s h = rw (trim_right_none s h) (trim_left_none s h)

  -- What is left stands in the text.
  pub trim_infix : (s : List A) → (a b : List A) × (s ≡ a ++ (trim cut s ++ b))
  unfolding trim
  trim_infix s =
      let (b, p) = trim_right_prefix s in
      let (a, q) = trim_left_suffix (trim_right cut s) in
      (a, b, p ∙ ap (λ t. t ++ b) q ∙ append_assoc a (trim_left cut (trim_right cut s)) b)

  -- A predicate of all items passes to what is left.
  module _ {κ} (P : A → Type κ) where
    pub trim_right-All : (s : List A) → All P s → All P (trim_right cut s)
    unfolding trim_right
    trim_right-All [] h = tt
    trim_right-All (c ∷ s) h = ground (arith, trim_right-All s h.1)

    pub trim_left-All : (s : List A) → All P s → All P (trim_left cut s)
    unfolding trim_left
    trim_left-All [] h = tt
    trim_left-All (c ∷ s) h = ground (arith, trim_left-All s h.1)

    pub trim-All : (s : List A) → All P s → All P (trim cut s)
    unfolding trim
    trim-All s h = trim_left-All (trim_right cut s) (trim_right-All s h)
