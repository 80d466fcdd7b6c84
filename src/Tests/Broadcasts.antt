-- ===== src/Tests/Broadcasts.antt =====
-- Broadcast addresses.
use lan_nickname.Base.{[], ◌∷◌, none, some, ◌≡◌, refl, Bytes, length, arith}
use lan_nickname.Network.{broadcast_address, broadcast_bytes}
use lan_nickname.Network.Broadcast.{IsBroadcast, broadcast_bytes-IsBroadcast}

abbrev ip : Bytes
ip = 192 ∷ 168 ∷ 20 ∷ 7 ∷ []

abbrev mask : Bytes
mask = 255 ∷ 255 ∷ 252 ∷ 0 ∷ []

private_network : broadcast_address ip mask ≡ some (192 ∷ 168 ∷ 23 ∷ 255 ∷ [])
unfolding broadcast_address
private_network = refl

short_mask : broadcast_address ip (255 ∷ []) ≡ none
unfolding broadcast_address
short_mask = refl

broadcast_bytes-IsBroadcast_example :
    (out : Bytes) × (broadcast_bytes 4 ip mask ≡ some out)
    × (length out ≡ 4)
    × IsBroadcast ip mask out
broadcast_bytes-IsBroadcast_example =
    broadcast_bytes-IsBroadcast 4 ip mask (omega arith) (omega arith)
