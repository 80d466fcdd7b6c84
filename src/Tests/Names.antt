-- ===== src/Tests/Names.antt =====
-- Aliases, host keys and the settings.
use lan_nickname.Base.{
  ℕ, ◌≤◌, ◌<◌, ◌^◌, ◌*◌, true, false, [], ◌≡◌, refl, ◌↔◌, ◌⊎◌, ok, err, codes, member, length,
  arith,
}
use lan_nickname.Agent.{Settings, check_settings}
use lan_nickname.Agent.Options.{check_settings_iff, check_settings_overflow}
use lan_nickname.Base.Duration.{pos, second}
use lan_nickname.Config.{alias, reserved}
use lan_nickname.Config.Alias.{alias-IsLabel}
use lan_nickname.Config.Label.{IsLabel}
use lan_nickname.Protocol.HostKey.{
  IsKey, validate_key, validate_key_iff, max_key, parse_key, type_mismatch, not_normalized,
}
use lan_nickname.Tests.Values.{ascii, key}

living_room : alias ascii (codes "  Living  Room!! ") ≡ codes "living-room"
unfolding alias
living_room = refl

punctuation : alias ascii (codes "?!") ≡ codes "lan-machine"
unfolding alias
punctuation = refl

localhost : alias ascii (codes "LocalHost") ≡ codes "lan-localhost"
unfolding alias
localhost = refl

key_from_file : parse_key (codes "ssh-ed25519  AAAAC3NzaC1lZDI1NTE5AAAA joey@nas\n") ≡ ok key
unfolding parse_key
key_from_file = refl

wrong_type : validate_key (codes "ssh-rsa AAAAC3NzaC1lZDI1NTE5AAAA") ≡ err type_mismatch
unfolding validate_key
wrong_type = refl

two_spaces : validate_key (codes "ssh-ed25519  AAAAC3NzaC1lZDI1NTE5AAAA") ≡ err not_normalized
unfolding validate_key
two_spaces = refl

alias-IsLabel_example :
    IsLabel (alias ascii (codes "Living Room"))
    × (member (alias ascii (codes "Living Room")) reserved ≡ false)
alias-IsLabel_example = alias-IsLabel ascii (codes "Living Room")

nas-IsLabel : IsLabel (codes "nas-2")
unfolding alias
nas-IsLabel = (alias-IsLabel ascii (codes "nas-2")).0

valid_key : validate_key key ≡ ok tt
unfolding validate_key
valid_key = refl

validate_key_iff_example :
    (validate_key key ≡ ok tt) ↔ ((key ≡ []) ⊎ (IsKey key × (length key ≤ max_key)))
validate_key_iff_example = validate_key_iff key

abbrev settings : ℕ → ℕ → Settings
settings n t = record {
  port = pos 47777;
  interval = pos n;
  ttl = pos t;
  hosts_path = [];
  ssh_paths = record { config = []; known_hosts = []; null_device = [] };
  sync_hosts = true;
}

check_settings_iff_example :
    (check_settings (settings 5_000_000_000 16_000_000_000) ≡ ok tt)
    ↔ ((second ≤ 5_000_000_000) × (2 * 5_000_000_000 < 16_000_000_000))
check_settings_iff_example =
    check_settings_iff (settings 5_000_000_000 16_000_000_000) 5_000_000_000 16_000_000_000 refl
      refl (omega arith)

-- An interval of 2^62 nanoseconds with a time to live of one.
check_settings_overflow_example : check_settings (settings (2 ^ 62) 1) ≡ ok tt
check_settings_overflow_example =
    check_settings_overflow (settings (2 ^ 62) 1) (2 ^ 62) 1 refl refl (omega arith) (omega arith)
