-- ===== src/Hosts/Clean.antt =====
-- Peers whose lines cannot be taken for a marker.
use lan_nickname.Base.{
  ℕ, ◌&&◌, not, List, [], ◌∷◌, ◌++◌, Option, none, some, refl, inl, inr, arith, Bytes, All,
  All-append, All-map, codes, Bool-cases, append_assoc, member,
}
use lan_nickname.Base.Dict.{Dict}
use lan_nickname.Config.Label.{IsLabel}
use lan_nickname.Hosts.{
  Net, end_marker, aliases_of, peers_of, usable, usable_addresses, host_line, host_lines,
  alias_lines, all_lines, render_body,
}
use lan_nickname.Ssh.Plain.{IsPlain, label-IsPlain}
use lan_nickname.Store.{Peer, Snapshot, sort, str_lt}
use lan_nickname.Store.Order.{sort-All}
use lan_nickname.Text.Search.{
  Absent, Free, Absent-Free, Absent-append_stop, Absent-append_Free, Absent-cons, starts_with,
  index,
}

abbrev IsSafe : Bytes → Type 0
IsSafe s = Absent s end_marker × Free b'\r' s

-- A peer with a host label and a nickname of one line that, behind a `#`, does not show the end marker.
pub record IsClean (p : Peer) : Type 0 where
  pub label : IsLabel p.alias_name
  pub one_line : Free b'\r' p.nickname
  pub no_marker : Absent (codes "# " ++ p.nickname) end_marker

-- Printed addresses are digits and punctuation.
abbrev pub PrintsPlain : Net → Type 0
PrintsPlain N = (ip : Bytes) → All IsPlain (N.ip_text ip)

plain-cr : (s : Bytes) → All IsPlain s → Free b'\r' s
plain-cr s = All-map (λ c h. h.1) s

plain-hash : (s : Bytes) → All IsPlain s → Free b'#' s
plain-hash s = All-map (λ c h. h.0) s

-- Texts that end in a line end are put together.
IsSafe-lines : (s t : Bytes) → IsSafe s → IsSafe t → IsSafe (s ++ (b'\n' ∷ t))
IsSafe-lines s t a b = (
  Absent-append_stop s b'\n' t end_marker (omega arith) a.0 b.0,
  All-append _ s (b'\n' ∷ t) a.1 ((omega arith), b.1),
)

IsSafe-plain : (s t : Bytes) → All IsPlain s → IsSafe t → IsSafe (s ++ t)
IsSafe-plain s t p a =
    (Absent-append_Free s t b'#' _ (plain-hash s p) a.0, All-append _ s t (plain-cr s p) a.1)

IsSafe-nil : IsSafe []
unfolding index
IsSafe-nil = (refl, tt)

-- The line of an alias that several machines advertise.
collision-IsSafe :
    (alias rest : Bytes)
    → All IsPlain alias
    → IsSafe rest
    → IsSafe (
        (codes "# collision: " ++ (alias ++ codes " is advertised by multiple machines\n")) ++ rest)
unfolding starts_with
collision-IsSafe alias rest l r =
    let tail : IsSafe (
        codes " collision: "
        ++ (alias ++ (codes " is advertised by multiple machines" ++ (b'\n' ∷ rest)))) =
      IsSafe-plain (codes " collision: ") _ (omega arith) (
        IsSafe-plain alias _ l (
          IsSafe-lines (codes " is advertised by multiple machines") rest
            (Absent-Free _ b'#' _ (omega arith), omega arith) r)) in
    simp append_assoc (Absent-cons b'#' _ end_marker refl tail.0, ((omega arith), tail.1))

peers_of-IsClean :
    (alias : Bytes) (ps : List Peer) → All IsClean ps → All IsClean (peers_of alias ps)
unfolding peers_of
peers_of-IsClean alias [] h = tt
peers_of-IsClean alias (p ∷ ps) h = ground (arith, peers_of-IsClean alias ps h.1)

aliases_of-IsPlain : (ps : List Peer) → All IsClean ps → All (All IsPlain) (aliases_of ps)
unfolding aliases_of
aliases_of-IsPlain [] h = tt
aliases_of-IsPlain (p ∷ ps) h = elim (Bool-cases (member p.alias_name (aliases_of ps))) [
  | inl e ↦ rw e (aliases_of-IsPlain ps h.1)
  | inr e ↦ rw e (label-IsPlain p.alias_name h.0.label, aliases_of-IsPlain ps h.1)
]

nickname-IsSafe : (p : Peer) → IsClean p → IsSafe (codes "# " ++ p.nickname)
nickname-IsSafe p c = (c.no_marker, ((omega arith), ((omega arith), c.one_line)))

module _ (N : Net) (printed : PrintsPlain N) where
  host_line-IsSafe :
      (address nickname : Bytes) (alias rest : Bytes)
      → All IsPlain address
      → All IsPlain alias
      → IsSafe (codes "# " ++ nickname)
      → IsSafe rest
      → IsSafe (host_line address alias nickname ++ rest)
  host_line-IsSafe address nickname alias rest a l n r = simp append_assoc (
      IsSafe-plain address _ a (
        IsSafe-plain (b'\t' ∷ []) _ (omega arith) (
          IsSafe-plain alias _ l (
            IsSafe-plain (b'\t' ∷ []) _ (omega arith)
              (IsSafe-lines (codes "# " ++ nickname) rest n r)))))

  host_lines-IsSafe :
      (addresses : List Bytes) (alias nickname rest : Bytes)
      → All (All IsPlain) addresses
      → All IsPlain alias
      → IsSafe (codes "# " ++ nickname)
      → IsSafe rest
      → IsSafe (host_lines addresses alias nickname ++ rest)
  unfolding host_lines
  host_lines-IsSafe [] alias nickname rest a l n r = r
  host_lines-IsSafe (x ∷ xs) alias nickname rest a l n r =
      rw (append_assoc (host_line x alias nickname)) (
        host_line-IsSafe x nickname alias _ a.0 l n
          (host_lines-IsSafe xs alias nickname rest a.1 l n r))

  usable-IsPlain :
      (o : Option Bytes) (rest : List Bytes)
      → All (All IsPlain) rest
      → All (All IsPlain) (usable N o rest)
  unfolding usable
  usable-IsPlain none rest h = h
  usable-IsPlain (some ip) rest h =
      elim (Bool-cases (N.is_global_unicast ip && not (N.is_loopback ip))) [
        | inl e ↦ rw e (printed ip, h)
        | inr e ↦ rw e h
      ]

  usable_addresses-IsPlain : (d : Dict ℕ) → All (All IsPlain) (usable_addresses N d)
  unfolding usable_addresses
  usable_addresses-IsPlain [] = tt
  usable_addresses-IsPlain ((x, _) ∷ d) =
      usable-IsPlain (N.parse_ip x) _ (usable_addresses-IsPlain d)

  alias_lines-IsSafe :
      (alias : Bytes) (ps : List Peer) (rest : Bytes)
      → All IsPlain alias
      → All IsClean ps
      → IsSafe rest
      → IsSafe (alias_lines N alias ps ++ rest)
  unfolding alias_lines
  alias_lines-IsSafe alias [] rest l h r = collision-IsSafe alias rest l r
  alias_lines-IsSafe alias (p ∷ []) rest l h r =
      host_lines-IsSafe (sort str_lt (usable_addresses N p.addresses)) alias p.nickname rest
        (sort-All str_lt (All IsPlain) (usable_addresses N p.addresses)
          (usable_addresses-IsPlain p.addresses))
        l (nickname-IsSafe p h.0) r
  alias_lines-IsSafe alias (p ∷ q ∷ ps) rest l h r = collision-IsSafe alias rest l r

  all_lines-IsSafe :
      (aliases : List Bytes) (ps : List Peer)
      → All (All IsPlain) aliases
      → All IsClean ps
      → IsSafe (all_lines N aliases ps)
  unfolding all_lines
  all_lines-IsSafe [] ps l h = IsSafe-nil
  all_lines-IsSafe (a ∷ aliases) ps l h =
      alias_lines-IsSafe a (peers_of a ps) _ l.0 (peers_of-IsClean a ps h)
        (all_lines-IsSafe aliases ps l.1 h)

  -- The lines of clean peers hold no end marker and no carriage return.
  pub render_body-IsSafe :
      (snapshot : Snapshot)
      → All IsClean snapshot.peers
      → Absent (render_body N snapshot) end_marker × Free b'\r' (render_body N snapshot)
  unfolding render_body
  render_body-IsSafe snapshot h =
      all_lines-IsSafe (sort str_lt (aliases_of snapshot.peers)) snapshot.peers
        (sort-All str_lt (All IsPlain) (aliases_of snapshot.peers)
          (aliases_of-IsPlain snapshot.peers h))
        h
