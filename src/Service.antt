-- ===== src/Service.antt =====
-- internal/service/install.go: what the installers of the three systems share.
pub mod Render
pub mod Copy
pub mod Linux
pub mod Darwin
pub mod Windows
use lan_nickname.Base.{
  ℕ, ◌^◌, ◌<◌, Bool, true, false, not, ◌&&◌, ◌||◌, List, [], ◌∷◌, ◌++◌, Option, none, some, Result,
  ok, err, ◌>>=◌, ◌>>◌, refuse, Bytes, codes, is_empty, ltb, ◌==◌, if◌then◌else◌,
}
use lan_nickname.Config.State.{System, all_digits, digits_value, temporary_of}
use lan_nickname.Base.Dict.{lookup}
use lan_nickname.Files
use lan_nickname.Files.{
  World, Io, call, asking, running, write_file, rename, remove_file, read_file,
}
use lan_nickname.Files.Replace.{replace_with}

pub record StateOwner : Type 0 where
  pub uid : Bytes
  pub gid : Bytes

pub data Error : Type 0 where
  not_root no_manager half_owner bad_uid bad_gid bad_source bad_state_dir control_characters : Error
  open_failed inspect_failed not_regular mkdir_failed create_failed copy_failed flush_failed
        close_failed :
      Error
  chmod_failed write_failed replace_failed remove_failed : Error
  command_failed : List Bytes → Error

-- `filepath.IsAbs`, `sameFile`, `Mode().IsRegular`, `filepath.Dir` and `strconv.Quote`.
pub record Platform : Type 0 where
  pub is_abs : Bytes → Bool
  pub same_file : Bytes → Bytes → Bool
  pub is_regular : Bytes → Bool
  pub dir_of : Bytes → Bytes
  pub quote : Bytes → Bytes

-- `strconv.ParseUint(s, 10, 32)` succeeds.
unfoldable pub is_uint32 : Bytes → Bool
unfolding all_digits digits_value
is_uint32 s = not (is_empty s) && all_digits s && ltb (digits_value 0 s) (2 ^ 32)

unfoldable pub check_owner : StateOwner → Result Error StateOwner
unfolding is_uint32
check_owner o = if is_empty o.uid && is_empty o.gid then ok o else do
  refuse (is_empty o.uid || is_empty o.gid) half_owner
  refuse (not (is_uint32 o.uid)) bad_uid
  refuse (not (is_uint32 o.gid)) bad_gid
  ok o

unfoldable pub state_owner : System → Result Error StateOwner
unfolding check_owner
state_owner S =
    check_owner (record { uid = S.getenv (codes "SUDO_UID"); gid = S.getenv (codes "SUDO_GID") })

-- `strings.ContainsAny(s, "\r\n\x00")`
unfoldable pub has_control : Bytes → Bool
has_control [] = false
has_control (c ∷ s) = (c == b'\r') || (c == b'\n') || (c == 0) || has_control s

unfoldable pub validate_install_inputs : Platform → Bytes → Bytes → Result Error (Unit {0})
unfolding has_control
validate_install_inputs P source state_dir = do
  refuse (is_empty source || not (P.is_abs source)) bad_source
  refuse (is_empty state_dir || not (P.is_abs state_dir)) bad_state_dir
  refuse (has_control source || has_control state_dir) control_characters

unfoldable pub write_definition : Platform → Bytes → Bytes → Io Error (Unit {0})
unfolding call replace_with
write_definition P path s =
    Files.◌>>◌ (call (asking (P.dir_of path)) mkdir_failed)
      (replace_with (temporary_of path) path s write_failed (Files.pure tt) replace_failed)

-- `os.Stat(path)` gives no error.
abbrev pub there : {E : Type 0} → Option Bytes → Result E (Unit {0}) × World → Result E Bool × World
there none (_, w) = (ok false, w)
there (some _) (ok _, w) = (ok true, w)
there (some _) (err _, w) = (ok false, w)

unfoldable pub exists_file : Bytes → Io Error Bool
unfolding call
exists_file path w = there (lookup path w.files) (call (asking path) inspect_failed w)

-- The first error of two.
abbrev pub first_error :
    {E : Type 0} → Result E (Unit {0}) → Result E (Unit {0}) → Result E (Unit {0})
first_error (err e) r = err e
first_error (ok _) r = r

abbrev pub reported :
    {E : Type 0} → Result E (Unit {0}) → Result E (Unit {0}) × World → Result E (Unit {0}) × World
reported first (r, w) = (first_error first r, w)

-- Both parts are done; the first error is reported.
infixl 5 ◌also◌
abbrev pub ◌also◌ : {E : Type 0} → Io E (Unit {0}) → Io E (Unit {0}) → Io E (Unit {0})
◌also◌ m n w = reported (m w).0 (n (m w).1)
