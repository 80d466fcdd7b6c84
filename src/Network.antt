-- ===== src/Network.antt =====
-- internal/network/network.go: the interfaces on which the agent announces, and their broadcast addresses.
-- The parsing and the classes of addresses are those of the package `net`, a parameter.
pub mod Broadcast
pub mod Local
use lan_nickname.Base.{
  ℕ, zero, suc, ◌+◌, ◌*◌, ◌/◌, ◌%◌, Bool, true, false, not, ◌&&◌, ◌||◌, List, [], ◌∷◌, Option, none,
  some, ◌==◌, if◌then◌else◌, Bytes,
}

-- The w lowest bits of `ip | ^mask`.
unfoldable pub or_not : ℕ → ℕ → ℕ → ℕ
or_not zero ip mask = 0
or_not (suc w) ip mask = or_not w (ip / 2) (mask / 2) * 2 + (if mask % 2 == 1 then ip % 2 else 1)

abbrev cons_byte : ℕ → Option Bytes → Option Bytes
cons_byte b none = none
cons_byte b (some bs) = some (b ∷ bs)

-- The loop of `broadcastAddress` over the next n bytes; nothing where the source indexes out of range.
unfoldable pub broadcast_bytes : ℕ → Bytes → Bytes → Option Bytes
unfolding or_not
broadcast_bytes zero ip mask = some []
broadcast_bytes (suc n) (a ∷ ip) (m ∷ mask) = cons_byte (or_not 8 a m) (broadcast_bytes n ip mask)
broadcast_bytes (suc n) _ _ = none

unfoldable pub broadcast_address : Bytes → Bytes → Option Bytes
unfolding broadcast_bytes
broadcast_address = broadcast_bytes 4

-- What the system says of an interface; the addresses may be refused.
pub record Interface : Type 0 where
  pub index : ℕ
  pub name : Bytes
  pub up : Bool
  pub loopback : Bool
  pub multicast : Bool
  pub addrs : Option (List Bytes)

-- An interface with its IPv4 address and the outcome of `broadcastAddress`.
pub record Joined : Type 0 where
  pub interface : Interface
  pub ipv4 : Bytes
  pub broadcast : Option Bytes

-- `net.ParseCIDR` to an address and a mask, `To4` and `IsGlobalUnicast`.
pub record Cidr : Type 0 where
  pub parse : Bytes → Option (Bytes × Bytes)
  pub to4 : Bytes → Option Bytes
  pub global : Bytes → Bool

module _ (D : Cidr) where
  -- The address and the mask, if the text is that of an IPv4 address for global use.
  unfoldable pub ipv4_of : Option (Bytes × Bytes) → Option (Bytes × Bytes)
  ipv4_of none = none
  ipv4_of (some (ip, mask)) = elim (D.to4 ip) [
    | none ↦ none
    | some four ↦ if D.global ip then some (four, mask) else none
  ]

  abbrev or_later : Option (Bytes × Bytes) → Option (Bytes × Bytes) → Option (Bytes × Bytes)
  or_later none later = later
  or_later (some found) later = some found

  -- The loop over the addresses, which ends at the first.
  unfoldable pub first_ipv4 : List Bytes → Option (Bytes × Bytes)
  unfolding ipv4_of
  first_ipv4 [] = none
  first_ipv4 (s ∷ rest) = or_later (ipv4_of (D.parse s)) (first_ipv4 rest)

  abbrev listed : Option (List Bytes) → List Bytes
  listed none = []
  listed (some addresses) = addresses

  abbrev join : Interface → Option (Bytes × Bytes) → List Joined → List Joined
  join i none rest = rest
  join i (some (four, mask)) rest =
      record { interface = i; ipv4 = four; broadcast = broadcast_address four mask } ∷ rest

  -- `MulticastInterfaces`, from what `net.Interfaces` lists.
  unfoldable pub multicast_interfaces : List Interface → List Joined
  unfolding first_ipv4 broadcast_address
  multicast_interfaces [] = []
  multicast_interfaces (i ∷ is) =
      let rest = multicast_interfaces is in
      if not i.up || i.loopback || not i.multicast
      then rest
      else join i (first_ipv4 (listed i.addrs)) rest
