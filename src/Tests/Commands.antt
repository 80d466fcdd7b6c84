-- ===== src/Tests/Commands.antt =====
-- The command line.
use lan_nickname.Base.Dict.{lookup}
use lan_nickname.Base.{
  false, [], ◌∷◌, ◌++◌, ◌≡◌, refl, ok, err, Option, none, some, Result, Bytes, codes, is_empty,
  equal, if◌then◌else◌, ◌==◌, take, drop,
}
use lan_nickname.Cli.{
  parse_command, join, group_names, print_peer_map, usage, unknown_command, rename_to,
}
use lan_nickname.Cli.Change.{Error, empty_group, rename, set_group, shown_name, shown_group, status}
use lan_nickname.Config.Load.{ConfigJson, load_or_create}
use lan_nickname.Files.{World}
use lan_nickname.Tests.Keeping.{settings_json, machine}
use lan_nickname.Tests.Writing.{system, place}
use lan_nickname.Cli.Groups.{listed, listed-group_names}
use lan_nickname.Cli.Settings.{rename-eq-ok, set_group-eq-ok}
use lan_nickname.Config.{Config, validate}
use lan_nickname.Tests.Values.{ascii, peer₁, peer₂}
use mathlib.Core.List.{Perm}

two_words :
    parse_command (codes "rename" ∷ codes "Living" ∷ codes "Room" ∷ [])
    ≡ ok (rename_to (codes "Living Room"))
unfolding parse_command join
two_words = refl

bad_commands :
    (parse_command (codes "map" ∷ codes "x" ∷ []) ≡ err (usage (codes "map")))
    × (parse_command (codes "maps" ∷ []) ≡ err (unknown_command (codes "maps")))
unfolding parse_command join
bad_commands = (refl, refl)

printed_map :
    print_peer_map (peer₁ ∷ peer₂ ∷ [])
    ≡ codes
        "Upstairs:\n  nas\t10.0.0.7\tNAS\n\n(Ungrouped):\n  living-room\t10.0.0.5, 10.0.0.6\tLiving Room\n"
unfolding print_peer_map
printed_map = refl

listed-group_names_example :
    Perm (listed (group_names (peer₁ ∷ peer₂ ∷ [])) (peer₁ ∷ peer₂ ∷ [])) (peer₁ ∷ peer₂ ∷ [])
listed-group_names_example = listed-group_names (peer₁ ∷ peer₂ ∷ [])

-- The settings of a machine in their file.
abbrev settled : World
settled = record {
  files = (place.path, settings_json.marshal machine) ∷ [];
  answers = [];
  calls = [];
}

abbrev renaming : Result Error Bytes × World
renaming = rename ascii settings_json system (some place) none none (codes " b ") settled

rename-eq-ok_example :
    (codes "Nickname: b\nHost alias: b\n"
      ≡ shown_name ascii (record machine { nickname = codes "b" }))
    × (validate (record machine { nickname = codes "b" }) ≡ ok tt)
    × ((load_or_create settings_json system
          (some place)
          none
          none
          (record renaming.1 { answers = [] })).0
        ≡ ok (record machine { nickname = codes "b" }))
unfolding rename equal lookup
rename-eq-ok_example =
    rename-eq-ok ascii settings_json system place none none none none (codes " b ")
      (codes "Nickname: b\nHost alias: b\n") machine (record machine { nickname = codes "b" })
      settled (record renaming.1 { answers = [] }) refl refl refl refl refl refl

-- JSON of settings with nicknames of one byte and a group.
abbrev without_newline : Bytes → Bytes
without_newline [] = []
without_newline (c ∷ s) = if c == b'\n' then [] else c ∷ without_newline s

abbrev read_grouped : Bytes → Option Config
read_grouped [] = none
read_grouped (n ∷ s) =
    some (record { id = take 32 s; nickname = n ∷ []; group = without_newline (drop 32 s) })

abbrev grouped_json : ConfigJson
grouped_json = record {
  marshal = λ cfg. cfg.nickname ++ (cfg.id ++ cfg.group);
  unmarshal = read_grouped;
}

abbrev in_group : World
in_group = record {
  files = (place.path, grouped_json.marshal machine) ∷ [];
  answers = [];
  calls = [];
}

abbrev moving : Result Error Bytes × World
moving = set_group ascii grouped_json system (some place) none none (codes " Up ") in_group

set_group-eq-ok_example :
    (is_empty (codes "Up") ≡ false)
    × (codes "Group: Up\n" ≡ shown_group (record machine { group = codes "Up" }))
    × (validate (record machine { group = codes "Up" }) ≡ ok tt)
    × ((load_or_create grouped_json system
          (some place)
          none
          none
          (record moving.1 { answers = [] })).0
        ≡ ok (record machine { group = codes "Up" }))
unfolding set_group equal lookup
set_group-eq-ok_example =
    set_group-eq-ok ascii grouped_json system place none none none none (codes " Up ")
      (codes "Group: Up\n") machine (record machine { group = codes "Up" }) in_group
      (record moving.1 { answers = [] }) refl refl refl refl refl refl

no_group :
    (set_group ascii settings_json system (some place) none none (codes "  ") settled).0
    ≡ err empty_group
unfolding set_group equal lookup
no_group = refl

no_addresses_listed :
    (status ascii settings_json system (some place) none none (some []) settled).0
    ≡ ok (codes "Nickname: a\nHost alias: a\nLocal IPs:\n  (none)\n")
unfolding status equal lookup
no_addresses_listed = refl
