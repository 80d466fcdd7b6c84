-- ===== src/Config/Alias.antt =====
-- `Alias` yields host labels, and leaves alone what is one.
use lan_nickname.Base.{
  ℕ, ◌≤◌, ◌<◌, Bool, true, false, ◌&&◌, ◌||◌, not, List, [], ◌∷◌, ◌++◌, ltb, leb, ◌==◌, ◌≡◌, refl,
  ◌∙◌, sym, ap₂, Bytes, length, is_empty, member, map, All, arith, All-append, inl, inr, Bool-cases,
  All-map, ==_iff, append-nil, append_assoc,
}
use lan_nickname.Text.Trim.{trim, trim_right, trim_left, trim_right-All, trim_none}
use lan_nickname.Text.Unicode.{
  Unicode, is_upper, is_letter, is_digit, to_lower, is_space, trim_pieces,
}
use lan_nickname.Text.Utf8.{Piece, pieces_ascii, ascii_piece}
use lan_nickname.Config.Label.{
  label_byte, Sparse, ends, IsLabel, Sparse-append, ends-append, Sparse-trim_right, IsLabel-shorten,
  IsLabel-fallback, ends-trim_right, trim_right-ends, IsLabel-avoid_reserved, avoid_reserved-free,
}
use lan_nickname.Config.{
  is_hyphen, max_label, reserved, or_fallback, shorten, avoid_reserved, Builder, alias_step,
  alias_loop, alias,
}

-- What the loop keeps of the text that it builds.
record IsBuilt (b : Builder) : Type 0 where
  bytes : All (λ c. label_byte c ≡ true) b.out
  sparse : Sparse true b.out
  flag : ends true b.out ≡ (is_empty b.out || b.last_hyphen)

is_empty-append : (s : Bytes) (c : ℕ) → is_empty (s ++ c ∷ []) ≡ false
is_empty-append [] c = refl
is_empty-append (d ∷ s) c = refl

not_both : (a b : Bool) → (not a && not b) ≡ true → (a || b) ≡ false
not_both a b h = ground arith

trim_left-Sparse : (s : Bytes) → Sparse true s → trim_left is_hyphen s ≡ s
unfolding trim_left
trim_left-Sparse [] h = refl
trim_left-Sparse (c ∷ s) h = ground (arith, h.0)

-- A text cut of its hyphens, or the fallback.
IsLabel-cut :
    (s : Bytes)
    → All (λ c. label_byte c ≡ true) s
    → Sparse true s
    → ends false s ≡ false
    → IsLabel (shorten (or_fallback s))
unfolding or_fallback shorten
IsLabel-cut [] b p e = IsLabel-fallback
IsLabel-cut (c ∷ s) b p e = IsLabel-shorten c s b p e

neither : (a b : Bool) → (a || b) ≡ false → (not a && not b) ≡ true
neither a b h = ground arith

module _ (U : Unicode) where
  to_lower-not_upper : (r : ℕ) → is_upper (to_lower U r) ≡ false
  unfolding to_lower
  to_lower-not_upper r = ground (arith, U.lower_not_upper r)

  hyphen-label_byte : label_byte b'-' ≡ true
  unfolding label_byte
  hyphen-label_byte = refl

  -- An ASCII letter or digit of the lowered text.
  letter-label_byte :
      (r : ℕ)
      → is_upper r ≡ false
      → (is_letter U r || is_digit U r) ≡ true
      → leb r 127 ≡ true
      → (label_byte r ≡ true) × ((r == b'-') ≡ false)
  unfolding is_letter is_digit label_byte
  letter-label_byte r u l a = ground arith

  IsBuilt-append :
      (b : Builder) (c : ℕ) (hyphen : Bool)
      → IsBuilt b
      → label_byte c ≡ true
      → (c == b'-') ≡ hyphen
      → (hyphen ≡ true → ends true b.out ≡ false)
      → IsBuilt (record { out = b.out ++ c ∷ []; last_hyphen = hyphen })
  IsBuilt-append b c hyphen i l e k = record {
    bytes = All-append _ b.out (c ∷ []) i.bytes (l, tt);
    sparse = Sparse-append true b.out c i.sparse (λ h. k (rw e at h));
    flag = ends-append true b.out c ∙ e ∙ rw (is_empty-append b.out c) refl;
  }

  alias_step-IsBuilt :
      (b : Builder) (r : ℕ) → is_upper r ≡ false → IsBuilt b → IsBuilt (alias_step U b r)
  unfolding alias_step
  alias_step-IsBuilt b r u i = elim (Bool-cases (is_letter U r || is_digit U r)) [
    | inl l ↦ elim (Bool-cases (leb r 127)) [
      | inl a ↦
          let (byte, other) = letter-label_byte r u l a in
          rw (l, a) (IsBuilt-append b r false i byte other (λ e. cc))
      | inr a ↦ rw (l, a) i
    ]
    | inr l ↦ elim (Bool-cases (not (is_empty b.out) && not b.last_hyphen)) [
      | inl h ↦
          rw (l, h)
            (IsBuilt-append b b'-' true i hyphen-label_byte refl (λ _. i.flag ∙ not_both _ _ h))
      | inr h ↦ rw (l, h) i
    ]
  ]

  alias_loop-IsBuilt :
      (rs : List ℕ) (b : Builder)
      → All (λ r. is_upper r ≡ false) rs
      → IsBuilt b
      → (b' : Builder) × (alias_loop U b rs ≡ b'.out) × IsBuilt b'
  unfolding alias_loop
  alias_loop-IsBuilt [] b u i = (b, refl, i)
  alias_loop-IsBuilt (r ∷ rs) b u i =
      alias_loop-IsBuilt rs (alias_step U b r) u.1 (alias_step-IsBuilt b r u.0 i)

  lowered-not_upper :
      (ps : List Piece) → All (λ r. is_upper r ≡ false) (map (λ p. to_lower U p.rune) ps)
  lowered-not_upper [] = tt
  lowered-not_upper (p ∷ ps) = (to_lower-not_upper p.rune, lowered-not_upper ps)

  finished-IsLabel :
      (b : Builder) → IsBuilt b → IsLabel (shorten (or_fallback (trim is_hyphen b.out)))
  unfolding trim
  finished-IsLabel b i =
      let sparse = Sparse-trim_right true b.out i.sparse in
      rw (trim_left-Sparse (trim_right is_hyphen b.out) sparse) (
        IsLabel-cut (trim_right is_hyphen b.out)
          (trim_right-All is_hyphen (λ c. label_byte c ≡ true) b.out i.bytes) sparse
          (ends-trim_right b.out))

  -- Whatever the nickname, its alias is a host label: lower-case ASCII letters, digits and single
  -- hyphens within, from 1 to 63 bytes; and it is none of the reserved names.
  pub alias-IsLabel :
      (nickname : Bytes) → IsLabel (alias U nickname) × (member (alias U nickname) reserved ≡ false)
  unfolding alias
  alias-IsLabel nickname =
      let lowered = map (λ p. to_lower U p.rune) (trim_pieces nickname) in
      let (b, e, i) =
        alias_loop-IsBuilt lowered (record { out = []; last_hyphen = false })
          (lowered-not_upper (trim_pieces nickname))
          (record { bytes = tt; sparse = tt; flag = refl }) in
      (
        rw e (IsLabel-avoid_reserved _ (finished-IsLabel b i)),
        rw e (avoid_reserved-free (shorten (or_fallback (trim is_hyphen b.out)))),
      )

trim-label : (s : Bytes) → IsLabel s → trim is_hyphen s ≡ s
unfolding trim
trim-label s l = rw (trim_right-ends true s l.last) (trim_left-Sparse s l.sparse)

shorten-label : (s : Bytes) → length s ≤ max_label → shorten s ≡ s
unfolding shorten
shorten-label s h = let fits : ltb max_label (length s) ≡ false = ground arith in rw fits refl

or_fallback-label : (s : Bytes) → ends true s ≡ false → or_fallback s ≡ s
unfolding or_fallback
or_fallback-label [] e = cc
or_fallback-label (c ∷ s) e = refl

avoid_reserved-of_free : (s : Bytes) → member s reserved ≡ false → avoid_reserved s ≡ s
unfolding avoid_reserved
avoid_reserved-of_free s free = rw free refl

-- A text that is a label already.
module _ (U : Unicode) where
  label_byte-classes :
      (c : ℕ)
      → label_byte c ≡ true
      → (c < 128)
        × (is_space c ≡ false)
        × (to_lower U c ≡ c)
        × ((is_letter U c || is_digit U c) ≡ not (c == b'-'))
  unfolding label_byte is_space to_lower is_letter is_digit
  label_byte-classes c h = (ground arith, ground arith, ground arith, ground arith)

  alias_step-label :
      (b : Builder) (c : ℕ)
      → label_byte c ≡ true
      → ((c == b'-') ≡ true → (is_empty b.out || b.last_hyphen) ≡ false)
      → alias_step U b c ≡ record { out = b.out ++ c ∷ []; last_hyphen = c == b'-' }
  unfolding alias_step
  alias_step-label b c l p = elim (Bool-cases (c == b'-')) [
    | inl h ↦
        let class : (is_letter U c || is_digit U c) ≡ false =
          (label_byte-classes c l).3 ∙ rw h refl in
        let same : c ≡ b'-' = (==_iff c b'-').0 h in rw (class, neither _ _ (p h), h) (rw same refl)
    | inr h ↦
        let class : (is_letter U c || is_digit U c) ≡ true =
          (label_byte-classes c l).3 ∙ rw h refl in
        let small : leb c 127 ≡ true = ground (arith, (label_byte-classes c l).0) in
        rw (class, small, h) refl
  ]

  -- The loop copies a label.
  alias_loop-label :
      (s : Bytes) (b : Builder)
      → All (λ c. label_byte c ≡ true) s
      → Sparse (is_empty b.out || b.last_hyphen) s
      → alias_loop U b s ≡ b.out ++ s
  unfolding alias_loop
  alias_loop-label [] b l p = sym (append-nil b.out)
  alias_loop-label (c ∷ s) b l p =
      let next : Builder = record { out = b.out ++ c ∷ []; last_hyphen = c == b'-' } in
      rw (alias_step-label b c l.0 p.0) (
        alias_loop-label s next l.1 (rw (is_empty-append b.out c) p.1)
        ∙ append_assoc b.out (c ∷ []) s)

  lowered-label :
      (s : Bytes)
      → All (λ c. label_byte c ≡ true) s
      → map (λ p. to_lower U p.rune) (map ascii_piece s) ≡ s
  lowered-label [] l = refl
  lowered-label (c ∷ s) l = ap₂ ◌∷◌ (label_byte-classes c l.0).2 (lowered-label s l.1)

  trim_pieces-label :
      (s : Bytes) → All (λ c. label_byte c ≡ true) s → trim_pieces s ≡ map ascii_piece s
  unfolding trim_pieces
  trim_pieces-label s l =
      rw (pieces_ascii s (All-map (λ c h. (label_byte-classes c h).0) s l))
        (trim_none _ (map ascii_piece s) (no_spaces s l))
    where
      no_spaces :
          (s : Bytes)
          → All (λ c. label_byte c ≡ true) s
          → All (λ p. is_space p.rune ≡ false) (map ascii_piece s)
      no_spaces [] l = tt
      no_spaces (c ∷ s) l = ((label_byte-classes c l.0).1, no_spaces s l.1)

  -- A label that is not reserved is its own alias.
  pub alias-of_label : (s : Bytes) → IsLabel s → member s reserved ≡ false → alias U s ≡ s
  unfolding alias
  alias-of_label s l free = rw (trim_pieces-label s l.bytes) (
      rw (lowered-label s l.bytes) (
        rw (alias_loop-label s (record { out = []; last_hyphen = false }) l.bytes l.sparse) (
          rw (trim-label s l) (
            rw (or_fallback-label s l.last)
              (rw (shorten-label s l.short) (avoid_reserved-of_free s free))))))

  -- The alias of an alias is the alias.
  pub alias_idem : (nickname : Bytes) → alias U (alias U nickname) ≡ alias U nickname
  alias_idem nickname =
      let (l, free) = alias-IsLabel U nickname in alias-of_label (alias U nickname) l free
