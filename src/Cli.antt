-- ===== src/Cli.antt =====
-- cmd/lan-nick/main.go: the choice of the command, and the map of the active machines as text.
pub mod Groups
pub mod Change
pub mod Settings
pub mod Commands
pub mod Cleanup
use lan_nickname.Base.{
  ℕ, ◌+◌, ◌<◌, Bool, true, false, not, ◌&&◌, ◌||◌, List, [], ◌∷◌, ◌++◌, Option, none, some, Result,
  ok, err, ◌>>=◌, ◌>>◌, refuse, ltb, equal, member, map, length, if◌then◌else◌, Bytes, is_empty,
  codes,
}
use lan_nickname.Base.Dict.{Dict}
use lan_nickname.Config
use lan_nickname.Config.{Config, validate, alias}
use lan_nickname.Ssh.{count_alias}
use lan_nickname.Store.{Peer, str_lt, sort}
use lan_nickname.Text.Unicode.{trim_space, Unicode}

-- What `run` does with its arguments.
pub data Command : Type 0 where
  status print_map install uninstall help : Command
  rename_to set_group_to service_run : Bytes → Command
  serve : List Bytes → Command

pub data ArgumentError : Type 0 where
  usage : Bytes → ArgumentError
  no_state_directory : ArgumentError
  unknown_command : Bytes → ArgumentError

-- `strings.Join`
unfoldable pub join : Bytes → List Bytes → Bytes
join sep [] = []
join sep (s ∷ []) = s
join sep (s ∷ t ∷ rest) = s ++ (sep ++ join sep (t ∷ rest))

-- `if len(arguments) < 2`
abbrev words : Bytes → (Bytes → Command) → List Bytes → Result ArgumentError Command
words name make [] = err (usage name)
words name make (s ∷ rest) = ok (make (join (codes " ") (s ∷ rest)))

-- `if len(arguments) != 1`
abbrev alone : Bytes → Command → List Bytes → Result ArgumentError Command
alone name command [] = ok command
alone name command (s ∷ rest) = err (usage name)

abbrev state_directory : List Bytes → Result ArgumentError Command
state_directory (dir ∷ []) = ok (service_run dir)
state_directory _ = err no_state_directory

-- The command that `run` executes, from the command's name and what follows it.
unfoldable pub named_command : Bytes → List Bytes → Result ArgumentError Command
unfolding equal member
named_command name rest =
    if equal name (codes "rename")
    then words name rename_to rest
    else if equal name (codes "group")
    then words name set_group_to rest
    else if equal name (codes "map")
    then alone name print_map rest
    else if equal name (codes "install")
    then alone name install rest
    else if equal name (codes "uninstall")
    then alone name uninstall rest
    else if equal name (codes "serve")
    then ok (serve rest)
    else if equal name (codes "service-run")
    then state_directory rest
    else if member name (codes "help" ∷ codes "-h" ∷ codes "--help" ∷ [])
    then ok help
    else err (unknown_command name)

unfoldable pub parse_command : List Bytes → Result ArgumentError Command
unfolding named_command
parse_command [] = ok status
parse_command (name ∷ rest) = named_command name rest

-- `grouped[group]`
unfoldable pub grouped : Bytes → List Peer → List Peer
unfolding equal
grouped group [] = []
grouped group (p ∷ ps) =
    let rest = grouped group ps in if equal p.group group then p ∷ rest else rest

-- The groups that peers name, each once, in any order.
unfoldable pub named_groups : List Peer → List Bytes
unfolding member
named_groups [] = []
named_groups (p ∷ ps) =
    let rest = named_groups ps in
    if member p.group rest || is_empty p.group then rest else p.group ∷ rest

-- `groupNames` before the loop over it.
unfoldable pub group_names : List Peer → List Bytes
unfolding sort str_lt named_groups grouped
group_names ps = sort str_lt (named_groups ps) ++ (if is_empty (grouped [] ps) then [] else [] ∷ [])

abbrev collision_note : Bytes
collision_note = codes " (collision; host alias disabled)"

unfoldable pub map_line : List Peer → Peer → Bytes
unfolding count_alias sort str_lt join
map_line all p =
    codes "  "
    ++ (p.alias_name
        ++ ((if ltb 1 (count_alias p.alias_name all) then collision_note else [])
            ++ (b'\t'
                ∷ (join (codes ", ") (sort str_lt (map (λ (a, _). a) p.addresses))
                    ++ (b'\t' ∷ (p.nickname ++ codes "\n"))))))

unfoldable pub map_lines : List Peer → List Peer → Bytes
unfolding map_line
map_lines all [] = []
map_lines all (p ∷ ps) = map_line all p ++ map_lines all ps

-- One group under its heading; an empty line stands in front of each but the first.
unfoldable pub map_group : List Peer → Bytes → Bytes
unfolding map_lines grouped
map_group all group =
    (if is_empty group then codes "(Ungrouped)" else group)
    ++ (codes ":\n" ++ map_lines all (grouped group all))

-- `printPeerMap`
unfoldable pub print_groups : List Peer → List Bytes → Bytes
unfolding map_group
print_groups all [] = []
print_groups all (g ∷ []) = map_group all g
print_groups all (g ∷ h ∷ gs) = map_group all g ++ (b'\n' ∷ print_groups all (h ∷ gs))

unfoldable pub print_peer_map : List Peer → Bytes
unfolding print_groups group_names
print_peer_map ps = print_groups ps (group_names ps)
