-- ===== src/Tests/Reaching.antt =====
-- The machine's own addresses, where its state stands, and a service that cannot be installed.
use lan_nickname.Base.{
  ℕ, true, false, not, List, [], ◌∷◌, ◌++◌, ◌≡◌, refl, none, some, err, Bytes, codes, equal, map,
  member, if◌then◌else◌,
}
use lan_nickname.Config.Place.{Directories}
use lan_nickname.Config.State.{System}
use lan_nickname.Files.{World, works, fails}
use lan_nickname.Network.Local.Keys.{Distinct}
use lan_nickname.Network.Local.Listed.{is_local, local_ips-listed}
use lan_nickname.Network.Local.{Addresses, local_ips}
use lan_nickname.Network.{Interface}
use lan_nickname.Service.Windows.Install.Undone.{TakenBack, register-TakenBack}
use lan_nickname.Service.Windows.Install.{register, start_failed}
use lan_nickname.Store.Order.{Ordered}
use lan_nickname.Store.{str_lt}

-- Addresses are their own text, and behind a slash their mask is not looked at.
abbrev addresses : Addresses
addresses = record {
  cidr = record {
    parse = λ s. some (s, []);
    to4 = λ s. some s;
    global = λ s. not (equal s (codes "fe80::1"));
  };
  loopback = λ s. equal s (codes "127.0.0.1");
  text = λ s. s;
}

abbrev card : ℕ → List Bytes → Interface
card n listed = record {
  index = n;
  name = codes "eth";
  up = true;
  loopback = false;
  multicast = true;
  addrs = some listed;
}

abbrev cards : List Interface
cards =
    card 1 (codes "10.0.0.9" ∷ codes "fe80::1" ∷ [])
    ∷ card 2 (codes "10.0.0.5" ∷ codes "10.0.0.9" ∷ [])
    ∷ []

own_addresses : local_ips addresses (some cards) ≡ some (codes "10.0.0.5" ∷ codes "10.0.0.9" ∷ [])
unfolding local_ips equal
own_addresses = refl

local_ips-listed_example :
    Ordered str_lt (map (λ s. s) (codes "10.0.0.5" ∷ codes "10.0.0.9" ∷ []))
    × Distinct (map (λ s. s) (codes "10.0.0.5" ∷ codes "10.0.0.9" ∷ []))
    × (member (codes "10.0.0.9") (map (λ s. s) (codes "10.0.0.5" ∷ codes "10.0.0.9" ∷ []))
        ≡ is_local addresses (codes "10.0.0.9") cards)
local_ips-listed_example =
    local_ips-listed addresses cards (codes "10.0.0.5" ∷ codes "10.0.0.9" ∷ []) (codes "10.0.0.9")
      own_addresses

-- Parts with a slash in front of each.
abbrev slashed : List Bytes → Bytes
slashed [] = []
slashed (s ∷ rest) = b'/' ∷ (s ++ slashed rest)

abbrev direct : System
direct = record { windows = false; getenv = λ name. [] }

abbrev by_sudo : System
by_sudo = record {
  windows = false;
  getenv = λ name. if equal name (codes "SUDO_USER") then codes "ann" else [];
}

-- The first part is a path already.
abbrev joined : List Bytes → Bytes
joined [] = []
joined (s ∷ rest) = s ++ slashed rest

-- The directories of `root`, and of `ann`.
abbrev of_root : Directories
of_root = record {
  darwin = false;
  home_of = λ name. some (codes "/home/ann");
  user_config = some (codes "/root/.config");
  join = joined;
  dir_of = λ path. codes "/";
}

abbrev of_ann : Directories
of_ann = record of_root { user_config = some (codes "/home/ann/.config") }

-- The last step fails.
abbrev not_starting : World
not_starting = record {
  files = [];
  answers = works ∷ works ∷ works ∷ works ∷ fails none ∷ [];
  calls = [];
}

start_fails : (register (codes "C:\\lan-nick.exe") not_starting).0 ≡ err start_failed
unfolding register
start_fails = refl

register-TakenBack_example :
    TakenBack (codes "C:\\lan-nick.exe") (register (codes "C:\\lan-nick.exe") not_starting)
register-TakenBack_example = register-TakenBack (codes "C:\\lan-nick.exe") not_starting
