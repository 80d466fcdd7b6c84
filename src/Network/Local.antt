-- ===== src/Network/Local.antt =====
-- `LocalIPs` of internal/network/network.go. The parsing, the classes and the printing of addresses are those
-- of the package `net`.
pub mod Keys
pub mod Listed
use lan_nickname.Base.{
  Bool, true, false, not, ◌&&◌, ◌||◌, List, [], ◌∷◌, Option, none, some, Bytes, map, if◌then◌else◌,
}
use lan_nickname.Base.Dict.{Dict, lookup, insert}
use lan_nickname.Network.{Interface, Cidr}
use lan_nickname.Store.{str_lt, sort}

-- `IP.IsLoopback` and `IP.String`.
pub record Addresses : Type 0 where
  pub cidr : Cidr
  pub loopback : Bytes → Bool
  pub text : Bytes → Bytes

abbrev pub keys : Dict Bytes → List Bytes
keys = map (λ (k, _). k)

-- `seen[key]`; the list is empty where the key is missing, which it is not here.
abbrev pub add_found : Option Bytes → List Bytes → List Bytes
add_found none rest = rest
add_found (some ip) rest = ip ∷ rest

module _ (D : Addresses) where
  -- The body of the loop over the addresses, from the outcome of `net.ParseCIDR`.
  unfoldable pub see : Option (Bytes × Bytes) → Dict Bytes → Dict Bytes
  unfolding insert
  see none seen = seen
  see (some (ip, mask)) seen =
      if not (D.cidr.global ip) || D.loopback ip then seen else insert (D.text ip) ip seen

  unfoldable pub see_all : List Bytes → Dict Bytes → Dict Bytes
  unfolding see
  see_all [] seen = seen
  see_all (a ∷ rest) seen = see_all rest (see (D.cidr.parse a) seen)

  abbrev pub see_listed : Option (List Bytes) → Dict Bytes → Dict Bytes
  see_listed none seen = seen
  see_listed (some addresses) seen = see_all addresses seen

  -- The loop over the interfaces.
  unfoldable pub see_on : List Interface → Dict Bytes → Dict Bytes
  unfolding see_all
  see_on [] seen = seen
  see_on (i ∷ is) seen =
      see_on is (if not i.up || i.loopback then seen else see_listed i.addrs seen)

-- The second loop, over the sorted keys.
unfoldable pub looked_up : Dict Bytes → List Bytes → List Bytes
unfolding lookup
looked_up seen [] = []
looked_up seen (k ∷ ks) = add_found (lookup k seen) (looked_up seen ks)

-- `LocalIPs`, from what `net.Interfaces` lists, if it does.
unfoldable pub local_ips : Addresses → Option (List Interface) → Option (List Bytes)
unfolding see_on looked_up sort str_lt
local_ips D none = none
local_ips D (some is) = let seen = see_on D is [] in some (looked_up seen (sort str_lt (keys seen)))
