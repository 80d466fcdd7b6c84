-- ===== src/Config/Load.antt =====
-- `LoadOrCreate`, `Save` and `newID` of internal/config/config.go. JSON, the host's name, the random source
-- and the file's place, which Config/Place gives, are parameters.
pub mod Again
pub mod Files
use lan_nickname.Base.{
  ℕ, ◌+◌, ◌*◌, ◌-◌, ◌/◌, ◌%◌, ◌<◌, Bool, true, false, not, ◌&&◌, ◌||◌, List, [], ◌∷◌, ◌++◌, ◌≡◌,
  ◌≢◌, refl, ◌∙◌, ap, Option, none, some, Result, ok, err, Bytes, codes, is_empty, ltb, leb, ◌==◌,
  if◌then◌else◌, length, arith, ◌⊎◌, inl, inr, All,
}
use lan_nickname.Base.Dict.{Dict, lookup}
use lan_nickname.Config
use lan_nickname.Config.{Config, validate, is_hex, is_id, hex_digit}
use lan_nickname.Config.State.{System, SaveError, save_state, temporary_of}
use lan_nickname.Files.{
  World, Io, pure, raise, ◌>>=◌, ◌>>◌, from_result, wrap, Read, contents, missing, failed,
  read_file,
}
use lan_nickname.Text.Unicode.{trim_space}

pub record ConfigJson : Type 0 where
  pub marshal : Config → Bytes
  pub unmarshal : Bytes → Option Config

pub data LoadError : Type 0 where
  no_path read_failed bad_json no_random : LoadError
  invalid : Config.Error → LoadError
  save_failed : SaveError → LoadError

-- The directory and the path of the file, if there are.
pub record Place : Type 0 where
  pub dir : Bytes
  pub path : Bytes

abbrev pub found_place : Option Place → Result LoadError Place
found_place none = err no_path
found_place (some p) = ok p

-- What follows the validation of the settings.
abbrev pub if_valid : {A : Type 0} → A → Result Config.Error (Unit {0}) → Result LoadError A
if_valid a (ok _) = ok a
if_valid a (err e) = err (invalid e)

unfoldable pub save : ConfigJson → System → Option Place → Config → Io LoadError (Unit {0})
unfolding validate save_state
save J S place cfg = do
  from_result (if_valid tt (validate cfg))
  p ← from_result (found_place place)
  wrap save_failed (save_state S p.dir p.path (J.marshal cfg ++ codes "\n"))

-- The text of the digit of value d, below 16.
abbrev pub digit_text : ℕ → ℕ
digit_text d = if ltb d 10 then b'0' + d else b'a' + (d - 10)

-- `hex.EncodeToString`
unfoldable pub hex_text : Bytes → Bytes
hex_text [] = []
hex_text (b ∷ bs) = digit_text (b / 16) ∷ digit_text (b % 16) ∷ hex_text bs

-- `newID` from the random bytes, if there are.
unfoldable pub new_id : Option Bytes → Result LoadError Bytes
unfolding hex_text
new_id none = err no_random
new_id (some bytes) = ok (hex_text bytes)

abbrev pub host_name : Option Bytes → Bytes
host_name none = codes "unnamed-machine"
host_name (some s) = if is_empty (trim_space s) then codes "unnamed-machine" else s

abbrev pub parsed : Option Config → Result LoadError Config
parsed none = err bad_json
parsed (some cfg) = if_valid cfg (validate cfg)

module _ (J : ConfigJson) (S : System) (place : Option Place) where
  abbrev pub new_config : Option Bytes → Bytes → Config
  new_config host id = record { id = id; nickname = host_name host; group = [] }

  -- The new settings, from the identifier on.
  unfoldable pub created : Option Bytes → Bytes → Io LoadError Config
  unfolding save
  created host id = do save J S place (new_config host id); pure (new_config host id)

module _ (J : ConfigJson) (S : System) (place : Option Place) (host random : Option Bytes) where
  unfoldable pub create : Io LoadError Config
  unfolding new_id created
  create = do id ← from_result (new_id random); created J S place host id

  unfoldable pub load_read : Read → Io LoadError Config
  unfolding create validate
  load_read (contents s) = from_result (parsed (J.unmarshal s))
  load_read missing = create
  load_read failed = raise read_failed

  unfoldable pub load_or_create : Io LoadError Config
  unfolding load_read read_file
  load_or_create = do p ← from_result (found_place place); r ← read_file p.path; load_read r
