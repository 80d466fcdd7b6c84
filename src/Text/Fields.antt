-- ===== src/Text/Fields.antt =====
-- `strings.Fields`, and valid UTF-8.
use lan_nickname.Base.{
  ℕ, Bool, true, false, ◌&&◌, not, List, [], ◌∷◌, ◌++◌, ◌≡◌, leb, ltb, ◌==◌, if◌then◌else◌, Bytes,
  is_empty, length, All, All-append, arith, Bool-cases, inl, inr, take, zero, suc, ◌-◌,
}
use lan_nickname.Text.Unicode.{is_space}
use lan_nickname.Text.Utf8.{
  Piece, pieces, pieces_from, decode_rune, rune_error, NoLineEnd, decode_rune-clear,
}

-- The bytes read so far of the current field, and the pieces to come.
split_fields : Bytes → List Piece → List Bytes
unfolding is_space
split_fields current [] = if is_empty current then [] else current ∷ []
split_fields current (p ∷ ps) =
    let space = is_space p.rune in
    let rest = split_fields (if space then [] else current ++ p.raw) ps in
    if space && not (is_empty current) then current ∷ rest else rest

unfoldable pub fields : Bytes → List Bytes
unfolding split_fields pieces
fields s = split_fields [] (pieces s)

-- Every piece is a rune that was encoded.
all_encoded : List Piece → Bool
all_encoded [] = true
all_encoded (p ∷ ps) = not ((p.rune == rune_error) && leb (length p.raw) 1) && all_encoded ps

-- `utf8.ValidString`
unfoldable pub is_utf8 : Bytes → Bool
unfolding all_encoded pieces
is_utf8 s = all_encoded (pieces s)

-- A piece that is no space holds no line end.
abbrev IsClear : Piece → Type 0
IsClear p = is_space p.rune ≡ false → NoLineEnd p.raw

piece-clear :
    (b : ℕ) (s : Bytes)
    → is_space (decode_rune b s).0 ≡ false
    → NoLineEnd (take (decode_rune b s).1 (b ∷ s))
unfolding decode_rune is_space
piece-clear b s h = elim (Bool-cases (ltb b 128)) [
  | inl low ↦ let h' : is_space b ≡ false = rw low at h in rw low (ground arith, tt)
  | inr high ↦ decode_rune-clear b s (ground arith)
]

pieces_from-IsClear : (skip : ℕ) (s : Bytes) → All IsClear (pieces_from skip s)
unfolding pieces_from
pieces_from-IsClear skip [] = tt
pieces_from-IsClear (suc skip) (b ∷ s) = pieces_from-IsClear skip s
pieces_from-IsClear zero (b ∷ s) =
    (piece-clear b s, pieces_from-IsClear ((decode_rune b s).1 - 1) s)

split_fields-clear :
    (ps : List Piece) (current : Bytes)
    → All IsClear ps
    → NoLineEnd current
    → All NoLineEnd (split_fields current ps)
unfolding split_fields
split_fields-clear [] current h c = ground arith
split_fields-clear (p ∷ ps) current h c = elim (Bool-cases (is_space p.rune)) [
  | inl space ↦ rw space (let rest = split_fields-clear ps [] h.1 tt in ground arith)
  | inr other ↦
      rw other
        (split_fields-clear ps (current ++ p.raw) h.1 (All-append _ current p.raw c (h.0 other)))
]

-- No field holds a line end.
pub fields-clear : (s : Bytes) → All NoLineEnd (fields s)
unfolding fields pieces
fields-clear s = split_fields-clear (pieces s) [] (pieces_from-IsClear 0 s) tt
