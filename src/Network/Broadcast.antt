-- ===== src/Network/Broadcast.antt =====
-- The broadcast address of a network.
use lan_nickname.Base.{
  ℕ, zero, suc, ◌+◌, ◌*◌, ◌/◌, ◌%◌, ◌<◌, ◌≤◌, [], ◌∷◌, some, ◌==◌, if◌then◌else◌, Bytes, length,
  arith, ◌≡◌, refl,
}
use lan_nickname.Network.{or_not, broadcast_bytes}

-- The bit of weight 2^i.
unfoldable pub bit : ℕ → ℕ → ℕ
bit zero n = n % 2
bit (suc i) n = bit i (n / 2)

-- Where the mask has a one the bit of the address, elsewhere a one.
abbrev pub merged : ℕ → ℕ → ℕ
merged a m = if m == 1 then a else 1

half : (r a m : ℕ) → a < 2 → (r * 2 + merged a m) / 2 ≡ r
half r a m h = ground arith

rest_of : (r a m : ℕ) → a < 2 → (r * 2 + merged a m) % 2 ≡ merged a m
rest_of r a m h = ground arith

two : (n : ℕ) → n % 2 < 2
two n = omega arith

bit-or_not : (w i a m : ℕ) → i < w → bit i (or_not w a m) ≡ merged (bit i a) (bit i m)
unfolding bit or_not
bit-or_not zero i a m h = ground arith
bit-or_not (suc w) zero a m h = rest_of (or_not w (a / 2) (m / 2)) (a % 2) (m % 2) (two a)
bit-or_not (suc w) (suc i) a m h =
    rw (half (or_not w (a / 2) (m / 2)) (a % 2) (m % 2) (two a))
      (bit-or_not w i (a / 2) (m / 2) (omega (arith, h)))

-- Each byte has the address's bits where the mask has ones, and ones elsewhere.
abbrev pub IsBroadcast : Bytes → Bytes → Bytes → Type 0
IsBroadcast (a ∷ ip) (m ∷ mask) (b ∷ out) =
    ((i : ℕ) → i < 8 → bit i b ≡ merged (bit i a) (bit i m)) × IsBroadcast ip mask out
IsBroadcast _ _ _ = Unit

-- For an address and a mask of at least n bytes the loop indexes nothing out of range, and gives n bytes,
-- each with the address's bits where the mask has ones and with ones elsewhere.
pub broadcast_bytes-IsBroadcast :
    (n : ℕ) (ip mask : Bytes)
    → n ≤ length ip
    → n ≤ length mask
    → (out : Bytes) × (broadcast_bytes n ip mask ≡ some out)
      × (length out ≡ n)
      × IsBroadcast ip mask out
unfolding broadcast_bytes
broadcast_bytes-IsBroadcast zero ip mask h k = ([], refl, refl, nothing ip mask)
  where
    nothing : (ip mask : Bytes) → IsBroadcast ip mask []
    nothing [] mask = tt
    nothing (a ∷ ip) [] = tt
    nothing (a ∷ ip) (m ∷ mask) = tt
broadcast_bytes-IsBroadcast (suc n) [] mask h k = ground (arith, h)
broadcast_bytes-IsBroadcast (suc n) (a ∷ ip) [] h k = ground (arith, k)
broadcast_bytes-IsBroadcast (suc n) (a ∷ ip) (m ∷ mask) h k =
    let (out, e, l, is) =
      broadcast_bytes-IsBroadcast n ip mask (omega (arith, h)) (omega (arith, k)) in
    (or_not 8 a m ∷ out, rw e refl, rw l refl, ((λ i. bit-or_not 8 i a m), is))
