-- ===== src/Agent/Receive.antt =====
-- `receive` of internal/agent/agent.go, up to its first failed read or its cancellation: which of the
-- datagrams that arrive reach the loop of the agent.
use lan_nickname.Base.{
  Bool, true, not, ◌&&◌, List, [], ◌∷◌, ◌≡◌, Option, none, some, Result, ok, err, Bytes, take,
  if◌then◌else◌,
}
use lan_nickname.Hosts.{Net}
use lan_nickname.Protocol.{Announcement, Json, decode, max_announcement}
use lan_nickname.Protocol
use lan_nickname.Protocol.Valid.{IsValid}
use lan_nickname.Text.Unicode.{Unicode}

-- The source is `To4` of the sender's address, if that is an IPv4 address of UDP.
pub record Datagram : Type 0 where
  pub source : Option Bytes
  pub payload : Bytes

abbrev pub Received : Type 0
Received = Announcement × Bytes

-- `!udpSource.IP.IsGlobalUnicast() || udpSource.IP.IsLoopback()`, turned round.
abbrev pub is_peer : Net → Bytes → Bool
is_peer N ip = N.is_global_unicast ip && not (N.is_loopback ip)

module _ (U : Unicode) (J : Json) (N : Net) where
  abbrev sent_from : Bytes → Result Protocol.Error Announcement → List Received → List Received
  sent_from ip (ok a) rest = (a, ip) ∷ rest
  sent_from ip (err e) rest = rest

  -- One round of the loop; the buffer holds 2048 bytes.
  unfoldable pub pass : Option Bytes → Bytes → List Received → List Received
  unfolding decode
  pass none payload rest = rest
  pass (some ip) payload rest =
      if is_peer N ip then sent_from ip (decode U J (take 2048 payload)) rest else rest

  unfoldable pub receive : List Datagram → List Received
  unfolding pass
  receive [] = []
  receive (d ∷ ds) = let rest = receive ds in pass d.source d.payload rest

  -- What the loop can rely on.
  abbrev pub IsHeard : Received → Type 0
  IsHeard (a, ip) = IsValid U a × (is_peer N ip ≡ true)
