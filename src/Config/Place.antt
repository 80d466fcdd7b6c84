-- ===== src/Config/Place.antt =====
-- Where the state stands: `Dir` and `Path` of internal/config/config.go and `CachePath` of
-- internal/store/store.go. The users, the user's directory and `filepath` are parameters.
pub mod Shared
use lan_nickname.Base.{
  Bool, not, ◌&&◌, ◌||◌, List, [], ◌∷◌, Option, none, some, Bytes, codes, is_empty, equal,
  if◌then◌else◌,
}
use lan_nickname.Config.Load
use lan_nickname.Config.State.{System}

-- The home that `user.Lookup` gives, `os.UserConfigDir`, `filepath.Join` and `filepath.Dir`.
pub record Directories : Type 0 where
  pub darwin : Bool
  pub home_of : Bytes → Option Bytes
  pub user_config : Option Bytes
  pub join : List Bytes → Bytes
  pub dir_of : Bytes → Bytes

-- `account.HomeDir != ""`
abbrev pub given : Option Bytes → Option Bytes
given none = none
given (some s) = if is_empty s then none else some s

-- The home of the user behind `sudo`.
unfoldable pub sudo_home : System → Directories → Option Bytes
unfolding equal
sudo_home S D =
    let name = S.getenv (codes "SUDO_USER") in
    if not S.windows && not (is_empty name) && not (equal name (codes "root"))
    then given (D.home_of name)
    else none

abbrev pub in_home : Directories → Bytes → Bytes
in_home D home =
    if D.darwin
    then D.join (home ∷ codes "Library" ∷ codes "Application Support" ∷ codes "lan-nick" ∷ [])
    else D.join (home ∷ codes ".config" ∷ codes "lan-nick" ∷ [])

abbrev pub in_base : Directories → Option Bytes → Option Bytes
in_base D none = none
in_base D (some base) = some (D.join (base ∷ codes "lan-nick" ∷ []))

abbrev pub in_profile : Directories → Option Bytes → Option Bytes
in_profile D none = in_base D D.user_config
in_profile D (some home) = some (in_home D home)

-- `Dir`; nothing where it gives an error.
unfoldable pub state_dir : System → Directories → Option Bytes
unfolding sudo_home
state_dir S D =
    let set = S.getenv (codes "LAN_NICK_STATE_DIR") in
    if is_empty set then in_profile D (sudo_home S D) else some set

abbrev pub file_in : Directories → Bytes → Option Bytes → Option Load.Place
file_in D name none = none
file_in D name (some dir) =
    let path = D.join (dir ∷ name ∷ []) in some (record { dir = D.dir_of path; path = path })

-- The path of `Path` and of `CachePath`, with the directory that `filepath.Dir` gives of it.
unfoldable pub config_place : System → Directories → Option Load.Place
unfolding state_dir
config_place S D = file_in D (codes "config.json") (state_dir S D)

unfoldable pub cache_place : System → Directories → Option Load.Place
unfolding state_dir
cache_place S D = file_in D (codes "peers.json") (state_dir S D)
