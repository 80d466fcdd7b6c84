-- ===== src/Hosts.antt =====
-- internal/hosts/hosts.go: the managed section of the hosts file. Addresses are parsed, classified and
-- printed by the package `net`, a parameter; an IP address is its bytes, as `net.IP`.
pub mod Clean
pub mod Rerender
pub mod Sync
use lan_nickname.Base.{
  ℕ, Bool, true, false, not, ◌&&◌, ◌||◌, List, [], ◌∷◌, ◌++◌, Option, none, some, Result, ok, err,
  ◌>>=◌, equal, member, if◌then◌else◌, Bytes, is_empty, codes,
}
use lan_nickname.Base.Dict.{Dict}
use lan_nickname.Managed.{Error, remove_section, section_block, blank_line, is_newline}
use lan_nickname.Store.{Peer, Snapshot, str_lt, sort}
use lan_nickname.Text.Replace.{lf, crlf, to_lf, to_crlf}
use lan_nickname.Text.Search.{contains}
use lan_nickname.Text.Trim.{trim_right}

abbrev pub begin_marker : Bytes
begin_marker = codes "# BEGIN lan-nick (managed; do not edit)"

abbrev pub end_marker : Bytes
end_marker = codes "# END lan-nick"

pub record Net : Type 0 where
  pub parse_ip : Bytes → Option Bytes
  pub is_global_unicast : Bytes → Bool
  pub is_loopback : Bytes → Bool
  pub ip_text : Bytes → Bytes

-- The keys of `byAlias`.
unfoldable pub aliases_of : List Peer → List Bytes
unfolding member
aliases_of [] = []
aliases_of (p ∷ ps) =
    let rest = aliases_of ps in if member p.alias_name rest then rest else p.alias_name ∷ rest

-- `byAlias[alias]`
unfoldable pub peers_of : Bytes → List Peer → List Peer
unfolding equal
peers_of alias [] = []
peers_of alias (p ∷ ps) =
    let rest = peers_of alias ps in if equal p.alias_name alias then p ∷ rest else rest

abbrev pub host_line : Bytes → Bytes → Bytes → Bytes
host_line address alias nickname =
    address ++ (b'\t' ∷ (alias ++ (codes "\t# " ++ (nickname ++ codes "\n"))))

unfoldable pub host_lines : List Bytes → Bytes → Bytes → Bytes
host_lines [] alias nickname = []
host_lines (address ∷ rest) alias nickname =
    host_line address alias nickname ++ host_lines rest alias nickname

-- The text in front, cut at the right, and the section behind it.
unfoldable pub arrange : Bytes → Bytes → Bytes
arrange text body =
    (if is_empty text then text else text ++ blank_line)
    ++ (section_block begin_marker end_marker body ++ lf)

module _ (N : Net) where
  unfoldable pub usable : Option Bytes → List Bytes → List Bytes
  usable none rest = rest
  usable (some ip) rest =
      if N.is_global_unicast ip && not (N.is_loopback ip) then N.ip_text ip ∷ rest else rest

  unfoldable pub usable_addresses : Dict ℕ → List Bytes
  unfolding usable
  usable_addresses [] = []
  usable_addresses ((address, _) ∷ d) = usable (N.parse_ip address) (usable_addresses d)

  -- The body of the loop over the aliases.
  unfoldable pub alias_lines : Bytes → List Peer → Bytes
  unfolding host_lines usable_addresses sort str_lt
  alias_lines alias (p ∷ []) =
      host_lines (sort str_lt (usable_addresses p.addresses)) alias p.nickname
  alias_lines alias _ =
      codes "# collision: " ++ (alias ++ codes " is advertised by multiple machines\n")

  unfoldable pub all_lines : List Bytes → List Peer → Bytes
  unfolding alias_lines peers_of
  all_lines [] ps = []
  all_lines (alias ∷ rest) ps = alias_lines alias (peers_of alias ps) ++ all_lines rest ps

  -- What stands between the markers.
  unfoldable pub render_body : Snapshot → Bytes
  unfolding all_lines aliases_of sort str_lt
  render_body snapshot = all_lines (sort str_lt (aliases_of snapshot.peers)) snapshot.peers

  unfoldable pub render : Bytes → Snapshot → Result Error Bytes
  unfolding remove_section contains to_lf to_crlf trim_right arrange render_body
  render current snapshot = do
    rest ← remove_section begin_marker end_marker (to_lf current)
    let text = arrange (trim_right is_newline rest) (render_body snapshot)
    ok (if contains current crlf then to_crlf text else text)
