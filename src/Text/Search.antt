-- ===== src/Text/Search.antt =====
-- `strings.HasPrefix` and `strings.Index`. A pattern's first byte is taken not to recur in it, which
-- holds of every marker that the program searches for: so occurrences cannot overlap.
use lan_nickname.Base.{
  ℕ, suc, Bool, true, false, ◌&&◌, [], ◌∷◌, ◌++◌, Option, none, some, ◌≡◌, ◌≢◌, refl, arith, ◌==◌,
  if◌then◌else◌, Bytes, length, All,
}

unfoldable pub starts_with : Bytes → Bytes → Bool
starts_with s [] = true
starts_with [] (p ∷ ps) = false
starts_with (c ∷ s) (p ∷ ps) = (c == p) && starts_with s ps

abbrev after : Option ℕ → Option ℕ
after none = none
after (some n) = some (suc n)

-- The position of the first occurrence; `none` stands for -1.
unfoldable pub index : Bytes → Bytes → Option ℕ
unfolding starts_with
index [] pat = if starts_with [] pat then some 0 else none
index (c ∷ s) pat = if starts_with (c ∷ s) pat then some 0 else after (index s pat)

abbrev found : Option ℕ → Bool
found none = false
found (some n) = true

-- `strings.Contains`
unfoldable pub contains : Bytes → Bytes → Bool
unfolding index
contains s pat = found (index s pat)

-- The pattern does not occur.
abbrev pub Absent : Bytes → Bytes → Type 0
Absent s pat = index s pat ≡ none

-- The byte does not occur.
abbrev pub Free : ℕ → Bytes → Type 0
Free b = All (λ c. c ≢ b)

pub starts_with_self : (p rest : Bytes) → starts_with (p ++ rest) p ≡ true
unfolding starts_with
starts_with_self [] rest = refl
starts_with_self (c ∷ p) rest = ground (arith, starts_with_self p rest)

-- A prefix test that fails on `s` still fails when a `stop` byte that the pattern lacks follows.
pub starts_with-append_stop :
    (s : Bytes) (stop : ℕ) (rest pat : Bytes)
    → Free stop pat
    → starts_with s pat ≡ false
    → starts_with (s ++ stop ∷ rest) pat ≡ false
unfolding starts_with
starts_with-append_stop s stop rest [] f h = h
starts_with-append_stop [] stop rest (p ∷ pat) f h = ground (arith, f.0)
starts_with-append_stop (c ∷ s) stop rest (p ∷ pat) f h =
    ground (arith, starts_with-append_stop s stop rest pat f.1)

Absent-tail : (c : ℕ) (s pat : Bytes) → Absent (c ∷ s) pat → Absent s pat
unfolding index
Absent-tail c s pat h = ground arith

Absent-head : (c : ℕ) (s pat : Bytes) → Absent (c ∷ s) pat → starts_with (c ∷ s) pat ≡ false
unfolding index
Absent-head c s pat h = ground arith

pub Absent-nil : (h : ℕ) (t : Bytes) → Absent [] (h ∷ t)
unfolding index
Absent-nil h t = refl

-- The pattern does not occur in two texts, nor over a byte between them that it lacks.
pub Absent-append_stop :
    (s : Bytes) (stop : ℕ) (rest pat : Bytes)
    → Free stop pat
    → Absent s pat
    → Absent rest pat
    → Absent (s ++ stop ∷ rest) pat
unfolding index
Absent-append_stop [] stop rest [] f h k = h
Absent-append_stop [] stop rest (p ∷ pat) f h k = ground (arith, f.0)
Absent-append_stop (c ∷ s) stop rest pat f h k =
    ground
      (arith, starts_with-append_stop (c ∷ s) stop rest pat f, Absent-append_stop s stop rest pat f)

-- The first occurrence stands where the pattern first stands.
pub index-append :
    (s : Bytes) (h : ℕ) (t rest : Bytes)
    → Free h t
    → Absent s (h ∷ t)
    → index (s ++ ((h ∷ t) ++ rest)) (h ∷ t) ≡ some (length s)
unfolding index
index-append [] h t rest f a = rw (starts_with_self (h ∷ t) rest) refl
index-append (c ∷ s) h t rest f a =
    ground (arith, starts_with-append_stop s h (t ++ rest) t f, index-append s h t rest f)

starts_with-append : (s t pat : Bytes) → starts_with s pat ≡ true → starts_with (s ++ t) pat ≡ true
unfolding starts_with
starts_with-append s t [] h = refl
starts_with-append [] t (p ∷ pat) h = cc
starts_with-append (c ∷ s) t (p ∷ pat) h = ground (arith, starts_with-append s t pat)

-- What does not occur in a text does not occur in its beginning.
pub Absent-append_left : (s t pat : Bytes) → pat ≢ [] → Absent (s ++ t) pat → Absent s pat
unfolding index
Absent-append_left [] t [] ne a = absurd (ne refl)
Absent-append_left [] t (p ∷ pat) ne a = refl
Absent-append_left (c ∷ s) t pat ne a =
    ground (arith, starts_with-append (c ∷ s) t pat, Absent-append_left s t pat ne)

-- What does not occur in a text does not occur in its end.
pub Absent-append_right : (s t pat : Bytes) → Absent (s ++ t) pat → Absent t pat
unfolding index
Absent-append_right [] t pat a = a
Absent-append_right (c ∷ s) t pat a = ground (arith, Absent-append_right s t pat)

-- A text that lacks a pattern's first byte lacks the pattern.
pub Absent-Free : (s : Bytes) (h : ℕ) (t : Bytes) → Free h s → Absent s (h ∷ t)
unfolding index
Absent-Free [] h t f = refl
Absent-Free (c ∷ s) h t f = ground (arith, f.0, Absent-Free s h t f.1)

-- Bytes other than the pattern's first may stand in front.
pub Absent-append_Free :
    (s t : Bytes) (h : ℕ) (p : Bytes) → Free h s → Absent t (h ∷ p) → Absent (s ++ t) (h ∷ p)
unfolding index
Absent-append_Free [] t h p f a = a
Absent-append_Free (c ∷ s) t h p f a = ground (arith, f.0, Absent-append_Free s t h p f.1)

pub Absent-cons :
    (c : ℕ) (s pat : Bytes) → starts_with (c ∷ s) pat ≡ false → Absent s pat → Absent (c ∷ s) pat
unfolding index
Absent-cons c s pat h a = rw (h, a) refl
