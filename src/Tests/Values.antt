-- ===== src/Tests/Values.antt =====
-- The values of the tests.
use lan_nickname.Base.{
  ℕ, ◌≡◌, refl, true, false, [], ◌∷◌, ◌++◌, Option, none, some, Bytes, codes, map, if◌then◌else◌,
  ltb, length, take, drop, take-append, drop-append, arith, ◌==◌,
}
use lan_nickname.Hosts.{Net}
use lan_nickname.Hosts.Clean.{PrintsPlain}
use lan_nickname.Protocol.{Announcement, Json}
use lan_nickname.Protocol.Wire.{ReadsBack}
use lan_nickname.Ssh.Plain.{IsPlain}
use lan_nickname.Store.{Peer, Snapshot}
use lan_nickname.Text.Unicode.{Unicode, is_upper}

unfoldable pub above_ascii : ℕ → ℕ
above_ascii r = if ltb r 128 then 128 else r

pub above_ascii-not_upper : (r : ℕ) → is_upper (above_ascii r) ≡ false
unfolding above_ascii is_upper
above_ascii-not_upper r = ground arith

-- No letters and digits but those of ASCII.
abbrev pub ascii : Unicode
ascii = record {
  letter = λ _. false;
  digit = λ _. false;
  lower = above_ascii;
  lower_not_upper = above_ascii-not_upper;
}

unfoldable pub plain_byte : ℕ → ℕ
plain_byte c = if c == b'#' then b'.' else if c == b'\r' then b'.' else c

plain_byte-IsPlain : (c : ℕ) → IsPlain (plain_byte c)
unfolding plain_byte
plain_byte-IsPlain c = (ground arith, ground arith)

-- Addresses are their own text.
abbrev pub net : Net
net = record {
  parse_ip = λ s. some s;
  is_global_unicast = λ _. true;
  is_loopback = λ _. false;
  ip_text = map plain_byte;
}

pub net-PrintsPlain : PrintsPlain net
net-PrintsPlain [] = tt
net-PrintsPlain (c ∷ ip) = (plain_byte-IsPlain c, net-PrintsPlain ip)

unfoldable pub put : Bytes → Bytes → Bytes
put s rest = length s ∷ (s ++ rest)

unfoldable pub pick : Bytes → Bytes × Bytes
pick [] = ([], [])
pick (n ∷ s) = (take n s, drop n s)

unfoldable pub read_fields : Bytes → Option Announcement
unfolding pick
read_fields (v ∷ t ∷ s) =
    let (i, s₁) = pick s in
    let (n, s₂) = pick s₁ in
    let (l, s₃) = pick s₂ in
    let (g, s₄) = pick s₃ in
    let (k, s₅) = pick s₄ in
    some (record {
      version_number = v;
      id = i;
      nickname = n;
      alias_name = l;
      group = g;
      sent_at = t;
      host_key = k;
    })
read_fields _ = none

unfoldable pub write_fields : Announcement → Bytes
unfolding put
write_fields a =
    a.version_number
    ∷ a.sent_at
    ∷ put a.id (put a.nickname (put a.alias_name (put a.group (put a.host_key []))))

-- A printer and a reader of announcements.
abbrev pub json : Json
json = record { marshal = write_fields; unmarshal = read_fields }

pub json-ReadsBack : ReadsBack json
unfolding read_fields write_fields
json-ReadsBack a text = simp (take-append, drop-append) refl

abbrev pub id₁ : Bytes
id₁ = codes "0123456789abcdef0123456789abcdef"

abbrev pub id₂ : Bytes
id₂ = codes "fedcba9876543210fedcba9876543210"

abbrev pub key : Bytes
key = codes "ssh-ed25519 AAAAC3NzaC1lZDI1NTE5AAAA"

abbrev pub peer₁ : Peer
peer₁ = record {
  id = id₁;
  nickname = codes "Living Room";
  alias_name = codes "living-room";
  group = [];
  host_key = key;
  addresses = (codes "10.0.0.5", 100) ∷ (codes "10.0.0.6", 200) ∷ [];
}

abbrev pub peer₂ : Peer
peer₂ = record {
  id = id₂;
  nickname = codes "NAS";
  alias_name = codes "nas";
  group = codes "Upstairs";
  host_key = [];
  addresses = (codes "10.0.0.7", 300) ∷ [];
}

abbrev pub one_peer : Snapshot
one_peer = record { updated_at = 400; peers = peer₁ ∷ [] }

abbrev pub two_peers : Snapshot
two_peers = record { updated_at = 500; peers = peer₁ ∷ peer₂ ∷ [] }

abbrev pub heard : Announcement
heard = record {
  version_number = 1;
  id = id₁;
  nickname = codes "Living Room";
  alias_name = codes "living-room";
  group = [];
  sent_at = 7;
  host_key = key;
}
