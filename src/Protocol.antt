-- ===== src/Protocol.antt =====
-- internal/protocol/protocol.go: announcements, their validation and their wire form. The JSON of
-- `encoding/json` is a parameter: a printer and a reader of announcements.
pub mod HostKey
pub mod Valid
pub mod Wire
use lan_nickname.Base.{
  ℕ, Bool, true, false, not, ◌&&◌, ◌||◌, Result, ok, err, ◌>>=◌, ◌>>◌, refuse, Option, none, some,
  ltb, ◌==◌, equal, if◌then◌else◌, Bytes, length, is_empty,
}
use lan_nickname.Config
use lan_nickname.Config.{Config, is_id, validate_group, alias}
use lan_nickname.Protocol.HostKey.{KeyError, validate_key}
use lan_nickname.Text.Unicode.{Unicode}

abbrev pub version : ℕ
version = 1

abbrev pub max_announcement : ℕ
max_announcement = 1536

pub record Announcement : Type 0 where
  pub version_number : ℕ
  pub id : Bytes
  pub nickname : Bytes
  pub alias_name : Bytes
  pub group : Bytes
  pub sent_at : ℕ
  pub host_key : Bytes

pub data Error : Type 0 where
  wrong_version bad_id bad_nickname_length wrong_alias : Error
  bad_group : Config.Error → Error
  bad_key : KeyError → Error
  oversized bad_json : Error

-- An error of a callee, passed on as one of this package.
abbrev pub lift {ℓ} : {E : Type 0} {A : Type ℓ} → (E → Error) → Result E A → Result Error A
lift f (ok a) = ok a
lift f (err e) = err (f e)

-- `encoding/json` for announcements: `Marshal` never fails on this type.
pub record Json : Type 0 where
  pub marshal : Announcement → Bytes
  pub unmarshal : Bytes → Option Announcement

unfoldable pub read_json : Option Announcement → Result Error Announcement
read_json none = err bad_json
read_json (some a) = ok a

module _ (U : Unicode) where
  -- `now` is the clock's Unix time in seconds, and `key` the host key that the agent sets afterwards.
  unfoldable pub new_announcement : Config → ℕ → Bytes → Announcement
  unfolding alias
  new_announcement cfg now key = record {
    version_number = version;
    id = cfg.id;
    nickname = cfg.nickname;
    alias_name = alias U cfg.nickname;
    group = cfg.group;
    sent_at = now;
    host_key = key;
  }

  unfoldable pub validate : Announcement → Result Error (Unit {0})
  unfolding alias is_id validate_group validate_key equal
  validate a = do
    refuse (not (a.version_number == version)) wrong_version
    refuse (not (is_id a.id)) bad_id
    refuse (is_empty a.nickname || ltb 128 (length a.nickname)) bad_nickname_length
    refuse (not (equal a.alias_name (alias U a.nickname))) wrong_alias
    lift bad_group (validate_group a.group)
    lift bad_key (validate_key a.host_key)

  module _ (J : Json) where
    unfoldable pub encode : Announcement → Result Error Bytes
    unfolding validate
    encode a = do validate a; ok (J.marshal a)

    unfoldable pub decode : Bytes → Result Error Announcement
    unfolding validate read_json
    decode payload = do
      refuse (ltb max_announcement (length payload)) oversized
      a ← read_json (J.unmarshal payload)
      validate a
      ok a
