-- ===== src/Config/Place/Shared.antt =====
-- Which runs of the program share their state.
use lan_nickname.Base.{true, false, [], ◌∷◌, ◌≡◌, refl, some, Bytes, codes, is_empty, equal}
use lan_nickname.Config.Place.{Directories, state_dir}
use lan_nickname.Config.State.{System}

-- `sudo` by an ordinary user, outside Windows and macOS.
pub record IsSudo (S : System) (D : Directories) (user home : Bytes) : Type 0 where
  pub unix : S.windows ≡ false
  pub linux : D.darwin ≡ false
  pub unset : is_empty (S.getenv (codes "LAN_NICK_STATE_DIR")) ≡ true
  pub by : S.getenv (codes "SUDO_USER") ≡ user
  pub named : is_empty user ≡ false
  pub ordinary : equal user (codes "root") ≡ false
  pub known : D.home_of user ≡ some home
  pub lives : is_empty home ≡ false

-- The same user's own run, where `os.UserConfigDir` gives `.config` of the home.
pub record IsOwn (S : System) (D : Directories) (home : Bytes) : Type 0 where
  pub unset : is_empty (S.getenv (codes "LAN_NICK_STATE_DIR")) ≡ true
  pub direct : is_empty (S.getenv (codes "SUDO_USER")) ≡ true
  pub default : D.user_config ≡ some (D.join (home ∷ codes ".config" ∷ []))
  pub joins : (a b c : Bytes) → D.join (D.join (a ∷ b ∷ []) ∷ c ∷ []) ≡ D.join (a ∷ b ∷ c ∷ [])

-- What the service is told in its environment is where it looks.
pub service_dir :
    (S : System) (D : Directories) (dir : Bytes)
    → S.getenv (codes "LAN_NICK_STATE_DIR") ≡ dir
    → is_empty dir ≡ false
    → state_dir S D ≡ some dir
unfolding state_dir
service_dir S D dir told some_dir = rw (told, some_dir) refl
