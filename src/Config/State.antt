-- ===== src/Config/State.antt =====
-- How a state file is written: `OwnForInvoker` of internal/config/config.go, and the steps that `Save` there
-- and `Save` of internal/store/store.go share. The environment is a function; `windows` is
-- `runtime.GOOS == "windows"`.
use lan_nickname.Base.{
  ℕ, ◌+◌, ◌*◌, ◌-◌, ◌^◌, Bool, true, false, not, ◌&&◌, ◌||◌, [], ◌∷◌, ◌++◌, ◌≡◌, ◌≢◌, ap, Bytes,
  codes, is_empty, ltb, leb, ◌==◌, if◌then◌else◌, length, length-append, arith,
}
use lan_nickname.Base.Dict.{Dict}
use lan_nickname.Files.{World, Io, pure, raise, ◌>>◌, call, asking, wrap}
use lan_nickname.Files.Quiet.{
  IsQuiet, call-IsQuiet, if-IsQuiet, wrap-IsQuiet, pure-IsQuiet, raise-IsQuiet,
}
use lan_nickname.Files.Replace.{
  replace_with, replace_with-Replaces, Updates, Replaces-Updates, quiet-Updates,
}

pub data OwnError : Type 0 where
  half_given bad_uid bad_gid chown_failed : OwnError

pub record System : Type 0 where
  pub windows : Bool
  pub getenv : Bytes → Bytes

-- The value of decimal digits behind those that are read.
unfoldable pub digits_value : ℕ → Bytes → ℕ
digits_value n [] = n
digits_value n (c ∷ s) = digits_value (n * 10 + (c - b'0')) s

unfoldable pub all_digits : Bytes → Bool
all_digits [] = true
all_digits (c ∷ s) = leb b'0' c && leb c b'9' && all_digits s

-- A sign and what stands behind it.
abbrev pub magnitude : Bytes → Bytes
magnitude [] = []
magnitude (c ∷ s) = if (c == b'-') || (c == b'+') then s else c ∷ s

abbrev pub is_negative : Bytes → Bool
is_negative [] = false
is_negative (c ∷ s) = c == b'-'

-- `strconv.Atoi` succeeds on 64 bits.
unfoldable pub is_int : Bytes → Bool
unfolding digits_value all_digits
is_int s =
    not (is_empty (magnitude s))
    && all_digits (magnitude s)
    && ltb (digits_value 0 (magnitude s)) (if is_negative s then 2 ^ 63 + 1 else 2 ^ 63)

unfoldable pub own_as : Bytes → Bytes → Bytes → Io OwnError (Unit {0})
unfolding is_int call
own_as path uid gid =
    if is_empty uid && is_empty gid
    then pure tt
    else if is_empty uid || is_empty gid
    then raise half_given
    else if not (is_int uid)
    then raise bad_uid
    else if not (is_int gid)
    then raise bad_gid
    else call (asking path) chown_failed

unfoldable pub own_for_invoker : System → Bytes → Io OwnError (Unit {0})
unfolding own_as
own_for_invoker S path =
    let uid = S.getenv (codes "LAN_NICK_STATE_UID") in
    let gid = S.getenv (codes "LAN_NICK_STATE_GID") in
    if S.windows
    then pure tt
    else if is_empty uid && is_empty gid
    then own_as path (S.getenv (codes "SUDO_UID")) (S.getenv (codes "SUDO_GID"))
    else own_as path uid gid

pub data SaveError : Type 0 where
  mkdir_failed write_failed replace_failed : SaveError
  not_owned : OwnError → SaveError

-- `path + ".tmp"`
abbrev pub temporary_of : Bytes → Bytes
temporary_of path = path ++ codes ".tmp"

-- Both `Save`s from `os.MkdirAll` on, for the file's directory and path, and its new text.
unfoldable pub save_state : System → Bytes → Bytes → Bytes → Io SaveError (Unit {0})
unfolding own_for_invoker call replace_with
save_state S dir path s = do
  call (asking dir) mkdir_failed
  wrap not_owned (own_for_invoker S dir)
  replace_with (temporary_of path) path s write_failed
      (wrap not_owned (own_for_invoker S (temporary_of path))) replace_failed

own_as-IsQuiet : (path uid gid : Bytes) → IsQuiet (own_as path uid gid)
unfolding own_as
own_as-IsQuiet path uid gid = if-IsQuiet (is_empty uid && is_empty gid) _ _ (pure-IsQuiet tt) (
    if-IsQuiet (is_empty uid || is_empty gid) _ _ (raise-IsQuiet half_given) (
      if-IsQuiet (not (is_int uid)) _ _ (raise-IsQuiet bad_uid) (
        if-IsQuiet (not (is_int gid)) _ _ (raise-IsQuiet bad_gid)
          (call-IsQuiet (asking path) chown_failed))))

own_for_invoker-IsQuiet : (S : System) (path : Bytes) → IsQuiet (own_for_invoker S path)
unfolding own_for_invoker
own_for_invoker-IsQuiet S path = if-IsQuiet S.windows _ _ (pure-IsQuiet tt) (
    if-IsQuiet
      (is_empty (S.getenv (codes "LAN_NICK_STATE_UID"))
        && is_empty (S.getenv (codes "LAN_NICK_STATE_GID")))
      _ _ (own_as-IsQuiet path (S.getenv (codes "SUDO_UID")) (S.getenv (codes "SUDO_GID")))
      (own_as-IsQuiet path (S.getenv (codes "LAN_NICK_STATE_UID"))
        (S.getenv (codes "LAN_NICK_STATE_GID"))))

pub temporary_apart : (path : Bytes) → path ≢ temporary_of path
temporary_apart path e = absurd (omega (arith, length-append path (codes ".tmp"), ap length e))

-- However the system answers: if a state file is saved without error, it holds the whole new text, and
-- otherwise what it held before; no other file but the temporary is touched.
pub save_state-Updates :
    (S : System) (dir path s : Bytes) (P : Bytes → Type 0) (old : Dict Bytes) (w : World)
    → P s
    → w.files ≡ old
    → Updates (temporary_of path) path P old (save_state S dir path s w)
unfolding save_state
save_state-Updates S dir path s P old w p same =
    let t = temporary_of path in
    let own = λ (x : Bytes). wrap not_owned (own_for_invoker S x) in
    let quiet =
      λ (x : Bytes). wrap-IsQuiet not_owned (own_for_invoker S x) (own_for_invoker-IsQuiet S x) in
    quiet-Updates t path P old (call (asking dir) mkdir_failed) _
      (call-IsQuiet (asking dir) mkdir_failed)
      (λ _. quiet-Updates t path P old (own dir) _ (quiet dir) (λ _ w' same'.
        Replaces-Updates t path P old s
          (replace_with t path s write_failed (own t) replace_failed w') p
          (replace_with-Replaces t path s (temporary_apart path) old write_failed (own t)
            replace_failed w' (quiet t) same')))
      w same
