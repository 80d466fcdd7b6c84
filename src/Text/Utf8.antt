-- ===== src/Text/Utf8.antt =====
-- UTF-8 as `range` over a Go string reads it (`utf8.DecodeRune`): a byte that begins no valid sequence
-- is read alone, as U+FFFD.
use lan_nickname.Base.{
  ℕ, zero, suc, ◌+◌, ◌-◌, ◌*◌, Bool, false, ◌&&◌, List, [], ◌∷◌, ◌++◌, ◌≡◌, refl, arith, ltb, leb,
  ◌<◌, if◌then◌else◌, ◌==◌, Bytes, All, take, map, ◌||◌, ◌≤◌, Bool-cases, inl, inr,
}

pub record Piece : Type 0 where
  pub rune : ℕ
  pub raw : Bytes

abbrev pub rune_error : ℕ
rune_error = 0xfffd

between : ℕ → ℕ → ℕ → Bool
between lo hi x = leb lo x && leb x hi

-- The range of the second byte of a sequence, which shuts out long forms and surrogates.
second_low : ℕ → ℕ
second_low b = if b == 0xe0 then 0xa0 else if b == 0xf0 then 0x90 else 0x80

second_high : ℕ → ℕ
second_high b = if b == 0xed then 0x9f else if b == 0xf4 then 0x8f else 0xbf

abbrev bad : ℕ × ℕ
bad = (rune_error, 1)

two : ℕ → Bytes → ℕ × ℕ
unfolding between
two b (c ∷ _) = if between 0x80 0xbf c then ((b - 0xc0) * 64 + (c - 0x80), 2) else bad
two b [] = bad

three : ℕ → Bytes → ℕ × ℕ
unfolding between second_low second_high
three b (c ∷ d ∷ _) =
    if between (second_low b) (second_high b) c && between 0x80 0xbf d
    then ((b - 0xe0) * 4096 + (c - 0x80) * 64 + (d - 0x80), 3)
    else bad
three b _ = bad

four : ℕ → Bytes → ℕ × ℕ
unfolding between second_low second_high
four b (c ∷ d ∷ e ∷ _) =
    if between (second_low b) (second_high b) c && between 0x80 0xbf d && between 0x80 0xbf e
    then ((b - 0xf0) * 262144 + (c - 0x80) * 4096 + (d - 0x80) * 64 + (e - 0x80), 4)
    else bad
four b _ = bad

-- The first rune and its width, from the first byte and the rest.
unfoldable pub decode_rune : ℕ → Bytes → ℕ × ℕ
unfolding between two three four
decode_rune b rest =
    if ltb b 0x80
    then (b, 1)
    else if between 0xc2 0xdf b
    then two b rest
    else if between 0xe0 0xef b
    then three b rest
    else if between 0xf0 0xf4 b
    then four b rest
    else bad

-- The count is of the bytes of the last rune that are still to be passed over.
unfoldable pub pieces_from : ℕ → Bytes → List Piece
unfolding decode_rune
pieces_from skip [] = []
pieces_from (suc skip) (b ∷ s) = pieces_from skip s
pieces_from zero (b ∷ s) =
    let (r, width) = decode_rune b s in
    record { rune = r; raw = take width (b ∷ s) } ∷ pieces_from (width - 1) s

unfoldable pub pieces : Bytes → List Piece
unfolding pieces_from
pieces s = pieces_from 0 s

unfoldable pub runes : Bytes → List ℕ
unfolding pieces
runes s = map (λ p. p.rune) (pieces s)

-- The text of the pieces.
unfoldable pub join_pieces : List Piece → Bytes
join_pieces [] = []
join_pieces (p ∷ ps) = p.raw ++ join_pieces ps

abbrev pub ascii_piece : ℕ → Piece
ascii_piece c = record { rune = c; raw = c ∷ [] }

-- In an ASCII text each byte is a rune.
pub pieces_ascii : (s : Bytes) → All (λ c. c < 128) s → pieces s ≡ map ascii_piece s
unfolding pieces
pieces_ascii [] h = refl
pieces_ascii (c ∷ s) h = ground (arith, h.0, pieces_ascii s h.1)

-- No byte is a line end.
abbrev pub NoLineEnd : Bytes → Type 0
NoLineEnd = All (λ c. ((c == b'\n') || (c == b'\r')) ≡ false)

two-clear : (b : ℕ) (s : Bytes) → 128 ≤ b → NoLineEnd (take (two b s).1 (b ∷ s))
unfolding two
two-clear b [] h = ground arith
two-clear b (c ∷ s) h = ground arith

three-clear : (b : ℕ) (s : Bytes) → 128 ≤ b → NoLineEnd (take (three b s).1 (b ∷ s))
unfolding three
three-clear b (c ∷ d ∷ s) h = ground arith
three-clear b _ h = ground arith

four-clear : (b : ℕ) (s : Bytes) → 128 ≤ b → NoLineEnd (take (four b s).1 (b ∷ s))
unfolding four
four-clear b (c ∷ d ∷ e ∷ s) h = ground arith
four-clear b _ h = ground arith

-- A sequence of several bytes holds no line end.
pub decode_rune-clear : (b : ℕ) (s : Bytes) → 128 ≤ b → NoLineEnd (take (decode_rune b s).1 (b ∷ s))
unfolding decode_rune
decode_rune-clear b s h =
    let high : ltb b 0x80 ≡ false = ground arith in
    rw high (elim (Bool-cases (between 0xc2 0xdf b)) [
      | inl e ↦ rw e (two-clear b s h)
      | inr e ↦ rw e (elim (Bool-cases (between 0xe0 0xef b)) [
        | inl f ↦ rw f (three-clear b s h)
        | inr f ↦ rw f (elim (Bool-cases (between 0xf0 0xf4 b)) [
          | inl g ↦ rw g (four-clear b s h)
          | inr g ↦ rw g (ground arith)
        ])
      ])
    ])
