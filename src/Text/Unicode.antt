-- ===== src/Text/Unicode.antt =====
-- The classes of runes that the program asks for. `unicode.IsSpace` and `unicode.IsControl` are given
-- in full. Letters, digits and lower case are given for ASCII; beyond it they are the tables of the
-- Unicode standard, a parameter.
use lan_nickname.Base.{
  ℕ, ◌+◌, Bool, false, ◌&&◌, ◌||◌, List, ◌≡◌, ltb, leb, ◌==◌, if◌then◌else◌, Bytes,
}
use lan_nickname.Text.Trim.{trim}
use lan_nickname.Text.Utf8.{Piece, pieces, join_pieces}

unfoldable pub is_upper : ℕ → Bool
is_upper r = leb b'A' r && leb r b'Z'

unfoldable pub is_lower : ℕ → Bool
is_lower r = leb b'a' r && leb r b'z'

unfoldable pub is_ascii_digit : ℕ → Bool
is_ascii_digit r = leb b'0' r && leb r b'9'

-- The tables for runes from 128 on. The lower-case rune of such a one is no upper-case ASCII letter.
pub record Unicode : Type 0 where
  pub letter : ℕ → Bool
  pub digit : ℕ → Bool
  pub lower : ℕ → ℕ
  pub lower_not_upper : (r : ℕ) → is_upper (lower r) ≡ false

unfoldable pub is_space : ℕ → Bool
is_space r =
    (leb 9 r && leb r 13)
    || (r == 0x20)
    || (r == 0x85)
    || (r == 0xa0)
    || (r == 0x1680)
    || (leb 0x2000 r && leb r 0x200a)
    || (r == 0x2028)
    || (r == 0x2029)
    || (r == 0x202f)
    || (r == 0x205f)
    || (r == 0x3000)

unfoldable pub is_control : ℕ → Bool
is_control r = ltb r 0x20 || (leb 0x7f r && ltb r 0xa0)

module _ (U : Unicode) where
  unfoldable pub is_letter : ℕ → Bool
  unfolding is_lower is_upper
  is_letter r = if ltb r 128 then is_lower r || is_upper r else U.letter r

  unfoldable pub is_digit : ℕ → Bool
  unfolding is_ascii_digit
  is_digit r = if ltb r 128 then is_ascii_digit r else U.digit r

  unfoldable pub to_lower : ℕ → ℕ
  unfolding is_upper
  to_lower r = if ltb r 128 then (if is_upper r then r + 32 else r) else U.lower r

-- `strings.TrimSpace`
unfoldable pub trim_pieces : Bytes → List Piece
unfolding pieces trim is_space
trim_pieces s = trim (λ p. is_space p.rune) (pieces s)

unfoldable pub trim_space : Bytes → Bytes
unfolding trim_pieces join_pieces
trim_space s = join_pieces (trim_pieces s)
