-- ===== src/Ssh/Plain.antt =====
-- The rendered bodies hold neither `#` nor a carriage return, so they hold no marker.
use lan_nickname.Base.{
  ℕ, Bool, true, ◌&&◌, List, [], ◌∷◌, ok, ◌≡◌, ◌≢◌, inl, inr, arith, ◌==◌, Bytes, All, All-append,
  All-map, codes, length, Bool-cases,
}
use lan_nickname.Config.Label.{IsLabel, label_byte}
use lan_nickname.Config.{is_id, is_hex, hex_digit}
use lan_nickname.Protocol.HostKey.{validate_key, validate_key-IsKey, IsKey-plain}
use lan_nickname.Store.{Peer, Snapshot}
use lan_nickname.Store.Order.{sort-All}
use lan_nickname.Text.Search.{Free}
use lan_nickname.Text.Utf8.{NoLineEnd}
use lan_nickname.Ssh.Trust.{IsTrusted, is_trusted-IsTrusted}
use lan_nickname.Ssh.{
  Paths, trusted_peers, render_known_hosts, render_config, host_block, host_blocks, is_trusted,
  select, alias_lt,
}

-- A byte that neither begins a marker nor ends a line with a carriage return.
abbrev pub IsPlain : ℕ → Type 0
IsPlain c = (c ≢ b'#') × (c ≢ b'\r')

-- The parts of a peer that are written.
pub record IsWritable (p : Peer) : Type 0 where
  pub alias_plain : All IsPlain p.alias_name
  pub id_plain : All IsPlain p.id
  pub key_plain : All IsPlain p.host_key

label_byte-IsPlain : (c : ℕ) → label_byte c ≡ true → IsPlain c
unfolding label_byte
label_byte-IsPlain c h = (ground arith, ground arith)

hex_digit-IsPlain : (c : ℕ) → hex_digit c ≡ true → IsPlain c
unfolding hex_digit
hex_digit-IsPlain c h = (ground arith, ground arith)

and_parts : (a b c : Bool) → (a && b && c) ≡ true → (a ≡ true) × (b ≡ true) × (c ≡ true)
and_parts a b c h = ground arith

pub label-IsPlain : (s : Bytes) → IsLabel s → All IsPlain s
label-IsPlain s l = All-map label_byte-IsPlain s l.bytes

hex-IsPlain : (s : Bytes) → is_hex s ≡ true → All IsPlain s
unfolding is_hex
hex-IsPlain [] h = tt
hex-IsPlain (a ∷ []) h = cc
hex-IsPlain (a ∷ b ∷ s) h =
    let (p, q, r) = and_parts (hex_digit a) (hex_digit b) (is_hex s) h in
    (hex_digit-IsPlain a p, (hex_digit-IsPlain b q, hex-IsPlain s r))

and_second : (a b : Bool) → (a && b) ≡ true → b ≡ true
and_second a b h = ground arith

id-IsPlain : (s : Bytes) → is_id s ≡ true → All IsPlain s
unfolding is_id
id-IsPlain s h = hex-IsPlain s (and_second (length s == 32) (is_hex s) h)

pub render_known_hosts-IsPlain :
    (ps : List Peer) → All IsWritable ps → All IsPlain (render_known_hosts ps)
unfolding render_known_hosts
render_known_hosts-IsPlain [] h = tt
render_known_hosts-IsPlain (p ∷ ps) h = All-append IsPlain (codes "lan-nick-") _ (omega arith) (
    All-append IsPlain p.id _ h.0.id_plain (
      (omega arith),
      All-append IsPlain p.host_key _ h.0.key_plain
          ((omega arith), render_known_hosts-IsPlain ps h.1),
    ))

module _ (quote : Bytes → Bytes) (paths : Paths) (known : All IsPlain (quote paths.known_hosts))
    (null : All IsPlain (quote paths.null_device)) where
  host_block-IsPlain :
      (p : Peer) (rest : Bytes)
      → IsWritable p
      → All IsPlain rest
      → All IsPlain (host_block quote paths p rest)
  unfolding host_block
  host_block-IsPlain p rest w r = All-append IsPlain (codes "Host ") _ (omega arith) (
      All-append IsPlain p.alias_name _ w.alias_plain (
        All-append IsPlain
          (codes "\n  AddressFamily inet\n  CheckHostIP no\n  GlobalKnownHostsFile ") _
          (omega arith)
          (All-append IsPlain (quote paths.known_hosts) _ known (
            All-append IsPlain (codes "\n  HostKeyAlias lan-nick-") _ (omega arith) (
              All-append IsPlain p.id _ w.id_plain (
                All-append IsPlain (codes "\n  StrictHostKeyChecking yes\n  UserKnownHostsFile ") _
                  (omega arith)
                  (All-append IsPlain (quote paths.null_device) _ null (omega arith, r))))))))

  host_blocks-IsPlain :
      (ps : List Peer) → All IsWritable ps → All IsPlain (host_blocks quote paths ps)
  unfolding host_blocks
  host_blocks-IsPlain [] h = omega arith
  host_blocks-IsPlain (p ∷ ps) h = host_block-IsPlain p _ h.0 (host_blocks-IsPlain ps h.1)

  pub render_config-IsPlain :
      (ps : List Peer) → All IsWritable ps → All IsPlain (render_config quote paths ps)
  unfolding render_config
  render_config-IsPlain [] h = tt
  render_config-IsPlain (p ∷ ps) h = host_blocks-IsPlain (p ∷ ps) h

key-IsPlain : (key : Bytes) → key ≢ [] → validate_key key ≡ ok tt → All IsPlain key
key-IsPlain key ne v = elim (validate_key-IsKey key v) [
  | inl e ↦ absurd (ne e)
  | inr (k, _) ↦ let (lines, hash) = IsKey-plain k in plain key lines hash
]
  where
    plain : (s : Bytes) → NoLineEnd s → Free b'#' s → All IsPlain s
    plain [] l f = tt
    plain (c ∷ s) l f = ((f.0, ground (arith, l.0)), plain s l.1 f.1)

-- A trusted peer whose alias is a host label can be written.
IsTrusted-IsWritable :
    (all : List Peer) (p : Peer) → IsTrusted all p → IsLabel p.alias_name → IsWritable p
IsTrusted-IsWritable all p t l = record {
  alias_plain = label-IsPlain p.alias_name l;
  id_plain = id-IsPlain p.id t.identified;
  key_plain = key-IsPlain p.host_key t.has_key t.valid_key;
}

select-IsWritable :
    (all ps : List Peer) → All (λ p. IsLabel p.alias_name) ps → All IsWritable (select all ps)
unfolding select
select-IsWritable all [] h = tt
select-IsWritable all (p ∷ ps) h = elim (Bool-cases (is_trusted all p)) [
  | inl e ↦ rw e (
    IsTrusted-IsWritable all p ((is_trusted-IsTrusted all p).0 e) h.0,
    select-IsWritable all ps h.1,
  )
  | inr e ↦ rw e (select-IsWritable all ps h.1)
]

-- The trusted peers of a snapshot of labelled machines can all be written.
pub trusted_peers-IsWritable :
    (snapshot : Snapshot)
    → All (λ p. IsLabel p.alias_name) snapshot.peers
    → All IsWritable (trusted_peers snapshot)
unfolding trusted_peers
trusted_peers-IsWritable snapshot labels =
    sort-All alias_lt IsWritable (select snapshot.peers snapshot.peers)
      (select-IsWritable snapshot.peers snapshot.peers labels)
