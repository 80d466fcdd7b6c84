-- ===== src/Config.antt =====
-- internal/config/config.go: the machine's settings, their validation, and the host alias of a
-- nickname.
pub mod Label
pub mod Alias
pub mod State
pub mod Load
pub mod Place
use lan_nickname.Base.{
  ℕ, ◌+◌, Bool, true, false, ◌&&◌, ◌||◌, not, List, [], ◌∷◌, ◌++◌, Result, ok, err, ◌>>=◌, ◌>>◌,
  refuse, ltb, leb, ◌==◌, if◌then◌else◌, Bytes, length, take, is_empty, member, codes, map, Option,
  none, some,
}
use lan_nickname.Text.Trim.{trim, trim_right}
use lan_nickname.Text.Unicode.{
  Unicode, is_letter, is_digit, to_lower, is_control, trim_pieces, trim_space,
}
use lan_nickname.Text.Utf8.{Piece, runes}

pub record Config : Type 0 where
  pub id : Bytes
  pub nickname : Bytes
  pub group : Bytes

pub data Error : Type 0 where
  bad_id blank_nickname long_nickname control_nickname : Error
  blank_group long_group control_group : Error

-- `encoding/hex`: the bytes that digits stand for, or nothing.
unfoldable pub hex_digit : ℕ → Bool
hex_digit c = (leb b'0' c && leb c b'9') || (leb b'a' c && leb c b'f') || (leb b'A' c && leb c b'F')

-- `hex.DecodeString` succeeds: the digits are even in number and all hexadecimal.
unfoldable pub is_hex : Bytes → Bool
unfolding hex_digit
is_hex [] = true
is_hex (a ∷ []) = false
is_hex (a ∷ b ∷ s) = hex_digit a && hex_digit b && is_hex s

-- A machine identifier: 32 hexadecimal digits.
unfoldable pub is_id : Bytes → Bool
unfolding is_hex
is_id id = (length id == 32) && is_hex id

unfoldable pub any_control : List ℕ → Bool
unfolding is_control
any_control [] = false
any_control (r ∷ rs) = is_control r || any_control rs

unfoldable pub validate_group : Bytes → Result Error (Unit {0})
unfolding any_control trim_space runes
validate_group group = if is_empty group then ok tt else do
  refuse (is_empty (trim_space group)) blank_group
  refuse (ltb 128 (length group)) long_group
  refuse (any_control (runes group)) control_group

unfoldable pub validate : Config → Result Error (Unit {0})
unfolding is_id any_control trim_space runes validate_group
validate cfg = do
  refuse (not (is_id cfg.id)) bad_id
  refuse (is_empty (trim_space cfg.nickname)) blank_nickname
  refuse (ltb 128 (length cfg.nickname)) long_nickname
  refuse (any_control (runes cfg.nickname)) control_nickname
  validate_group cfg.group

-- The `strings.Builder` of `Alias` and its flag.
pub record Builder : Type 0 where
  pub out : Bytes
  pub last_hyphen : Bool

abbrev pub is_hyphen : ℕ → Bool
is_hyphen c = c == b'-'

abbrev pub max_label : ℕ
max_label = 63

abbrev pub fallback : Bytes
fallback = codes "lan-machine"

abbrev pub reserved : List Bytes
reserved =
    codes "localhost"
    ∷ codes "localhost.localdomain"
    ∷ codes "broadcasthost"
    ∷ codes "ip6-localhost"
    ∷ codes "ip6-loopback"
    ∷ []

module _ (U : Unicode) where
  unfoldable pub alias_step : Builder → ℕ → Builder
  unfolding is_letter is_digit
  alias_step b r =
      if is_letter U r || is_digit U r
      then (if leb r 127 then record { out = b.out ++ r ∷ []; last_hyphen = false } else b)
      else if not (is_empty b.out) && not b.last_hyphen
      then record { out = b.out ++ b'-' ∷ []; last_hyphen = true }
      else b

  unfoldable pub alias_loop : Builder → List ℕ → Bytes
  unfolding alias_step
  alias_loop b [] = b.out
  alias_loop b (r ∷ rs) = alias_loop (alias_step b r) rs

-- `if alias == "" { alias = "lan-machine" }`
unfoldable pub or_fallback : Bytes → Bytes
or_fallback s = if is_empty s then fallback else s

-- The cut to the longest label.
unfoldable pub shorten : Bytes → Bytes
unfolding trim_right
shorten s = if ltb max_label (length s) then trim_right is_hyphen (take max_label s) else s

unfoldable pub avoid_reserved : Bytes → Bytes
unfolding member
avoid_reserved s = if member s reserved then codes "lan-" ++ s else s

unfoldable pub alias : Unicode → Bytes → Bytes
unfolding alias_loop or_fallback shorten avoid_reserved trim trim_pieces to_lower
alias U nickname =
    let lowered = map (λ p. to_lower U p.rune) (trim_pieces nickname) in
    let built = alias_loop U (record { out = []; last_hyphen = false }) lowered in
    avoid_reserved (shorten (or_fallback (trim is_hyphen built)))
