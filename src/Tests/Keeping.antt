-- ===== src/Tests/Keeping.antt =====
-- What is kept from one run to the next, and what the removal of the program leaves.
use lan_nickname.Agent.HostKey.{load_host_key, host_key_paths, IsFirst, load_host_key-IsFirst}
use lan_nickname.Base.{
  ℕ, true, false, List, [], ◌∷◌, ◌++◌, ◌≡◌, refl, Option, none, some, ok, Bytes, codes, equal,
  ne_of_equal, take, All,
}
use lan_nickname.Base.Dict.{lookup, Dict}
use lan_nickname.Publish.{Targets, AreSeparate}
use lan_nickname.Cli.Cleanup.{uninstall_background, Cleaned, uninstall_background-Cleaned}
use lan_nickname.Config.{Config}
use lan_nickname.Config.Load.{ConfigJson, load_or_create}
use lan_nickname.Config.Load.Again.{load_again}
use lan_nickname.Files.{World}
use lan_nickname.Service.Linux.{linux_executable, systemd_unit, uninstall}
use lan_nickname.Ssh.Write.{temporary_of}
use lan_nickname.Store.{Peer, Store, Snapshot, take_snapshot, values, unusable}
use lan_nickname.Config.Load.{Place}
use lan_nickname.Store.Cache.{SnapshotJson, load, save}
use lan_nickname.Store.Cache.Again.{load-save}
use lan_nickname.Store.Invariant.{IsStore}
use lan_nickname.Tests.Values.{net, id₁, id₂, key, peer₂, put, pick}
use lan_nickname.Tests.Writing.{system, place, paths, hosts, temporary, paths_apart}

-- JSON of settings without a group and with a nickname of one byte.
abbrev pub tail_part : Bytes → Option Config
tail_part [] = none
tail_part (n ∷ id) = some (record { id = take 32 id; nickname = n ∷ []; group = [] })

abbrev pub settings_json : ConfigJson
settings_json = record { marshal = λ cfg. cfg.nickname ++ cfg.id; unmarshal = tail_part }

abbrev pub machine : Config
machine = record { id = id₁; nickname = codes "a"; group = [] }

abbrev pub empty : World
empty = record { files = []; answers = []; calls = [] }

abbrev random : Option Bytes
random =
    some
      (1 ∷ 35 ∷ 69 ∷ 103 ∷ 137 ∷ 171 ∷ 205 ∷ 239 ∷ 1 ∷ 35 ∷ 69 ∷ 103 ∷ 137 ∷ 171 ∷ 205 ∷ 239 ∷ [])

new_machine :
    (load_or_create settings_json system (some place) (some (codes "a")) random empty).0
    ≡ ok machine
unfolding load_or_create lookup equal
new_machine = refl

load_again_example :
    ((load_or_create settings_json system
        (some place)
        none
        none
        (record (load_or_create settings_json system
          (some place)
          (some (codes "a"))
          random
          empty).1 { answers = [] })).0
      ≡ ok machine)
    × ((load_or_create settings_json system
          (some place)
          none
          none
          (record (load_or_create settings_json system
            (some place)
            (some (codes "a"))
            random
            empty).1 { answers = [] })).1.files
        ≡ (load_or_create settings_json system
            (some place)
            (some (codes "a"))
            random
            empty).1.files)
load_again_example =
    load_again settings_json place system (some (codes "a")) random none none machine empty
      (record (load_or_create settings_json system (some place) (some (codes "a")) random empty).1 {
        answers = [];
      })
      refl new_machine refl refl

-- JSON of a snapshot of one peer with one address.
abbrev pub write_heard : Dict ℕ → Bytes
write_heard [] = []
write_heard ((address, at) ∷ _) = put address (at ∷ [])

abbrev pub write_peers : List Peer → Bytes
write_peers [] = []
write_peers (p ∷ _) =
    put p.id
      (put p.nickname (put p.alias_name (put p.group (put p.host_key (write_heard p.addresses)))))

abbrev pub read_heard : Bytes × Bytes → Dict ℕ
read_heard (address, []) = []
read_heard (address, at ∷ _) = (address, at) ∷ []

unfoldable pub read_snapshot : Bytes → Option Snapshot
unfolding pick
read_snapshot [] = none
read_snapshot (t ∷ s) =
    let (i, s₁) = pick s in
    let (n, s₂) = pick s₁ in
    let (l, s₃) = pick s₂ in
    let (g, s₄) = pick s₃ in
    let (k, s₅) = pick s₄ in
    some (record {
      updated_at = t;
      peers =
          (record {
            id = i;
            nickname = n;
            alias_name = l;
            group = g;
            host_key = k;
            addresses = read_heard (pick s₅);
          })
          ∷ [];
    })

abbrev pub snapshot_json : SnapshotJson
snapshot_json = record {
  marshal = λ s. s.updated_at ∷ write_peers s.peers;
  unmarshal = read_snapshot;
}

abbrev one_machine : Store
one_machine = (id₂, peer₂) ∷ []

abbrev pub cache : Place
cache = record { dir = codes "/home/a"; path = codes "/home/a/peers.json" }

one_machine-IsStore : IsStore one_machine
unfolding lookup equal
one_machine-IsStore = record {
  keys = (refl, tt);
  entries = (record { keyed = refl; heard = refl; once = (refl, tt) }, tt);
}

one_machine_usable : All (λ p. unusable p ≡ false) (values one_machine)
unfolding unusable
one_machine_usable = (refl, tt)

read_back :
    snapshot_json.unmarshal (snapshot_json.marshal (take_snapshot one_machine 400) ++ codes "\n")
    ≡ some (take_snapshot one_machine 400)
unfolding read_snapshot put take_snapshot
read_back = refl

saved : (save snapshot_json (some cache) system 400 one_machine empty).0 ≡ ok tt
unfolding save lookup equal put
saved = refl

load-save_example :
    (t : Store) × ((load snapshot_json
        (some cache)
        (record (save snapshot_json (some cache) system 400 one_machine empty).1 {
          answers = [];
        })).0
      ≡ ok t)
    × ((k : Bytes) → lookup k t ≡ lookup k one_machine)
load-save_example =
    load-save snapshot_json cache system 400 one_machine empty
      (record (save snapshot_json (some cache) system 400 one_machine empty).1 { answers = [] })
      one_machine-IsStore one_machine_usable read_back saved refl refl

-- Only the last of the key files is there.
abbrev keyed : World
keyed = record {
  files = (codes "/etc/ssh/ssh_host_rsa_key.pub", key ++ codes " root@nas\n") ∷ [];
  answers = [];
  calls = [];
}

abbrev key_paths : List Bytes
key_paths = host_key_paths system (λ a b. a ++ (codes "/" ++ b))

loaded_key : (load_host_key key_paths keyed).0 ≡ ok key
unfolding load_host_key host_key_paths lookup equal
loaded_key = refl

load_host_key-IsFirst_example : IsFirst keyed.files key_paths key
load_host_key-IsFirst_example = load_host_key-IsFirst key_paths key keyed loaded_key

abbrev pub targets : Targets
targets = record { temporary = temporary; hosts = hosts; paths = paths }

pub separate : AreSeparate targets
unfolding equal
separate = record {
  hosts_temporary = ne_of_equal hosts temporary refl;
  hosts_keys = ne_of_equal hosts paths.known_hosts refl;
  hosts_keys_temporary = ne_of_equal hosts (temporary_of paths.known_hosts) refl;
  hosts_config = ne_of_equal hosts paths.config refl;
  hosts_config_temporary = ne_of_equal hosts (temporary_of paths.config) refl;
  keys_temporary = ne_of_equal paths.known_hosts temporary refl;
  config_temporary = ne_of_equal paths.config temporary refl;
  ssh = paths_apart;
}

-- The hosts file is not there.
abbrev left_behind : World
left_behind = record {
  files =
      (systemd_unit, codes "unit")
      ∷ (linux_executable, codes "program")
      ∷ (paths.config, codes "Host nas\n")
      ∷ [];
  answers = [];
  calls = [];
}

uninstall_background-Cleaned_example :
    Cleaned net
      (λ s. s)
      targets
      (uninstall true left_behind).1.files
      (uninstall_background net (λ s. s) targets (uninstall true) left_behind)
uninstall_background-Cleaned_example =
    uninstall_background-Cleaned net (λ s. s) targets (uninstall true) left_behind refl separate
