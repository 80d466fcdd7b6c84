-- ===== src/Config/Label.antt =====
-- Host labels, and what the steps of `Alias` keep of them.
use lan_nickname.Base.{
  ℕ, ◌≤◌, suc, zero, Bool, true, false, ◌&&◌, ◌||◌, List, [], ◌∷◌, ◌++◌, ltb, ◌==◌, ◌≡◌, refl,
  if◌then◌else◌, Bytes, length, take, is_empty, member, codes, All, arith, inl, inr, Bool-cases,
  equal, equal_iff, length-take-le, All-take,
}
use lan_nickname.Text.Trim.{trim_right, trim_right-All}
use lan_nickname.Text.Unicode.{is_lower, is_ascii_digit}
use lan_nickname.Config.{is_hyphen, max_label, fallback, reserved, shorten, avoid_reserved}

-- Lower-case ASCII letters, digits and hyphens.
unfoldable pub label_byte : ℕ → Bool
unfolding is_lower is_ascii_digit
label_byte c = is_lower c || is_ascii_digit c || is_hyphen c

-- No hyphen after a hyphen; the flag says whether one stands in front.
abbrev pub Sparse : Bool → Bytes → Type 0
Sparse prev [] = Unit
Sparse prev (c ∷ s) = ((c == b'-') ≡ true → prev ≡ false) × Sparse (c == b'-') s

-- Whether the text ends in a hyphen; the flag answers for the empty text.
abbrev pub ends : Bool → Bytes → Bool
ends prev [] = prev
ends prev (c ∷ s) = ends (c == b'-') s

-- A host label: no hyphen at an end and none beside another.
pub record IsLabel (s : Bytes) : Type 0 where
  pub bytes : All (λ c. label_byte c ≡ true) s
  pub sparse : Sparse true s
  pub last : ends true s ≡ false
  pub short : length s ≤ max_label

pub Sparse-append :
    (prev : Bool) (s : Bytes) (c : ℕ)
    → Sparse prev s
    → ((c == b'-') ≡ true → ends prev s ≡ false)
    → Sparse prev (s ++ c ∷ [])
Sparse-append prev [] c h k = (k, tt)
Sparse-append prev (d ∷ s) c h k = (h.0, Sparse-append (d == b'-') s c h.1 k)

pub ends-append : (prev : Bool) (s : Bytes) (c : ℕ) → ends prev (s ++ c ∷ []) ≡ (c == b'-')
ends-append prev [] c = refl
ends-append prev (d ∷ s) c = ends-append (d == b'-') s c

Sparse-take : (prev : Bool) (n : ℕ) (s : Bytes) → Sparse prev s → Sparse prev (take n s)
Sparse-take prev zero s h = tt
Sparse-take prev (suc n) [] h = tt
Sparse-take prev (suc n) (c ∷ s) h = (h.0, Sparse-take (c == b'-') n s h.1)

pub Sparse-trim_right :
    (prev : Bool) (s : Bytes) → Sparse prev s → Sparse prev (trim_right is_hyphen s)
unfolding trim_right
Sparse-trim_right prev [] h = tt
Sparse-trim_right prev (c ∷ s) h = ground (arith, Sparse-trim_right (c == b'-') s h.1)

ends_keep :
    (r : Bytes) (c : ℕ)
    → ends false r ≡ false
    → ends false (if is_empty r && is_hyphen c then [] else c ∷ r) ≡ false
ends_keep [] c h = ground arith
ends_keep (d ∷ r) c h = h

-- What is left by `TrimRight` ends in no hyphen.
pub ends-trim_right : (s : Bytes) → ends false (trim_right is_hyphen s) ≡ false
unfolding trim_right
ends-trim_right [] = refl
ends-trim_right (c ∷ s) = ends_keep (trim_right is_hyphen s) c (ends-trim_right s)

-- A text that ends in no hyphen is left by `TrimRight`.
pub trim_right-ends : (prev : Bool) (s : Bytes) → ends prev s ≡ false → trim_right is_hyphen s ≡ s
unfolding trim_right
trim_right-ends prev [] h = refl
trim_right-ends prev (c ∷ []) h = ground arith
trim_right-ends prev (c ∷ d ∷ s) h =
    let same = trim_right-ends (c == b'-') (d ∷ s) h in rw same refl

-- A text that begins with another byte is not trimmed away.
trim_right-cons :
    (c : ℕ) (s : Bytes)
    → (c == b'-') ≡ false
    → trim_right is_hyphen (c ∷ s) ≡ c ∷ trim_right is_hyphen s
unfolding trim_right
trim_right-cons c s h = ground arith

length-trim_right-le : (s : Bytes) → length (trim_right is_hyphen s) ≤ length s
unfolding trim_right
length-trim_right-le [] = omega arith
length-trim_right-le (c ∷ s) = ground (arith, length-trim_right-le s)

-- A text with no hyphen in front or beside another, cut at the right to at most 63 bytes.
IsLabel-trim_right :
    (c : ℕ) (s : Bytes)
    → All (λ d. label_byte d ≡ true) (c ∷ s)
    → Sparse true (c ∷ s)
    → length (trim_right is_hyphen (c ∷ s)) ≤ max_label
    → IsLabel (trim_right is_hyphen (c ∷ s))
IsLabel-trim_right c s b p n =
    let first : (c == b'-') ≡ false = ground (arith, p.0) in
    let cut = trim_right-cons c s first in
    record {
      bytes = trim_right-All is_hyphen (λ d. label_byte d ≡ true) (c ∷ s) b;
      sparse = Sparse-trim_right true (c ∷ s) p;
      last = rw cut (rw cut at (ends-trim_right (c ∷ s)));
      short = n;
    }

-- The text with its hyphens cut off is empty or begins with no hyphen.
pub IsLabel-shorten :
    (c : ℕ) (s : Bytes)
    → All (λ d. label_byte d ≡ true) (c ∷ s)
    → Sparse true (c ∷ s)
    → ends true (c ∷ s) ≡ false
    → IsLabel (shorten (c ∷ s))
unfolding shorten
IsLabel-shorten c s b p e = elim (Bool-cases (ltb max_label (length (c ∷ s)))) [
  | inl long ↦ rw long (
      IsLabel-trim_right c (take 62 s) (All-take (λ d. label_byte d ≡ true) 63 (c ∷ s) b)
        (Sparse-take true 63 (c ∷ s) p)
        (omega (arith, length-trim_right-le (take 63 (c ∷ s)), length-take-le 63 (c ∷ s))))
  | inr short ↦ rw short (record { bytes = b; sparse = p; last = e; short = ground arith })
]

pub IsLabel-fallback : IsLabel fallback
unfolding label_byte
IsLabel-fallback = record {
  bytes = ground arith;
  sparse = ground arith;
  last = refl;
  short = omega arith;
}

-- A short label with `lan-` in front is a label.
IsLabel-lan : (s : Bytes) → IsLabel s → length s ≤ 59 → IsLabel (codes "lan-" ++ s)
unfolding label_byte
IsLabel-lan s l h = record {
  bytes = (refl, (refl, (refl, (refl, l.bytes))));
  sparse = ((λ e. cc), ((λ e. refl), ((λ e. refl), ((λ e. refl), l.sparse))));
  last = l.last;
  short = omega arith;
}

member-short :
    (s : Bytes) (n : ℕ) (names : List Bytes)
    → All (λ r. length r ≤ n) names
    → member s names ≡ true
    → length s ≤ n
unfolding member
member-short s n [] b h = cc
member-short s n (r ∷ names) b h = elim (Bool-cases (equal s r)) [
  | inl same ↦ rw ((equal_iff s r).0 same) b.0
  | inr other ↦ member-short s n names b.1 (rw other at h)
]

pub IsLabel-avoid_reserved : (s : Bytes) → IsLabel s → IsLabel (avoid_reserved s)
unfolding avoid_reserved
IsLabel-avoid_reserved s l = elim (Bool-cases (member s reserved)) [
  | inl taken ↦ rw taken (IsLabel-lan s l (member-short s 59 reserved (omega arith) taken))
  | inr free ↦ rw free l
]

-- No alias is one of the names that the system owns.
pub avoid_reserved-free : (s : Bytes) → member (avoid_reserved s) reserved ≡ false
unfolding avoid_reserved
avoid_reserved-free s = elim (Bool-cases (member s reserved)) [
  | inl taken ↦ rw taken refl
  | inr free ↦ rw free free
]
