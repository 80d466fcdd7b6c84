-- ===== src/Cli/Change.antt =====
-- `status`, `rename` and `setGroup` of cmd/lan-nick/main.go, with the settings file. A command gives the text
-- that it prints.
use lan_nickname.Base.{
  List, [], ◌∷◌, ◌++◌, Option, none, some, Result, ok, err, refuse, Bytes, codes, is_empty,
}
use lan_nickname.Config.Load.{ConfigJson, LoadError, Place, load_or_create, save}
use lan_nickname.Config.State.{System}
use lan_nickname.Config.{Config, alias}
use lan_nickname.Files.{Io, pure, ◌>>=◌, ◌>>◌, from_result, wrap}
use lan_nickname.Text.Unicode.{trim_space, Unicode}

pub data Error : Type 0 where
  unsettled : LoadError → Error
  empty_group no_addresses : Error

abbrev pub shown_name : Unicode → Config → Bytes
shown_name U cfg =
    codes "Nickname: "
    ++ (cfg.nickname ++ (codes "\nHost alias: " ++ (alias U cfg.nickname ++ codes "\n")))

abbrev pub shown_group : Config → Bytes
shown_group cfg = codes "Group: " ++ (cfg.group ++ codes "\n")

unfoldable pub shown_addresses : List Bytes → Bytes
shown_addresses [] = []
shown_addresses (a ∷ rest) = codes "  " ++ (a ++ (codes "\n" ++ shown_addresses rest))

unfoldable pub shown_status : Unicode → Config → List Bytes → Bytes
unfolding shown_addresses alias
shown_status U cfg [] = shown_name U cfg ++ codes "Local IPs:\n  (none)\n"
shown_status U cfg (a ∷ rest) =
    shown_name U cfg ++ (codes "Local IPs:\n" ++ shown_addresses (a ∷ rest))

-- From what `LocalIPs` gives.
abbrev pub addressed : Option (List Bytes) → Result Error (List Bytes)
addressed none = err no_addresses
addressed (some addresses) = ok addresses

module _ (U : Unicode) (J : ConfigJson) (S : System) (place : Option Place) where
  -- `config.Save` and what is printed behind it.
  unfoldable pub keep : Config → Bytes → Io Error Bytes
  unfolding save
  keep new text = do wrap unsettled (save J S place new); pure text

  module _ (host random : Option Bytes) where
    unfoldable pub status : Option (List Bytes) → Io Error Bytes
    unfolding load_or_create shown_status
    status local = do
      cfg ← wrap unsettled (load_or_create J S place host random)
      addresses ← from_result (addressed local)
      pure (shown_status U cfg addresses)

    unfoldable pub rename : Bytes → Io Error Bytes
    unfolding load_or_create keep trim_space alias
    rename nickname = do
      cfg ← wrap unsettled (load_or_create J S place host random)
      let new = record cfg { nickname = trim_space nickname }
      keep new (shown_name U new)

    unfoldable pub set_group : Bytes → Io Error Bytes
    unfolding load_or_create keep trim_space
    set_group name = do
      cfg ← wrap unsettled (load_or_create J S place host random)
      from_result (refuse (is_empty (trim_space name)) empty_group)
      let new = record cfg { group = trim_space name }
      keep new (shown_group new)
