-- ===== src/Tests/Running.antt =====
-- The agent with the system's files.
use lan_nickname.Agent
use lan_nickname.Agent.Announce.{Announcer}
use lan_nickname.Agent.Flush.Outcome.{IsReady, HasFlushed, flush_files-HasFlushed}
use lan_nickname.Agent.Flush.{Setting, Clock, flush_files}
use lan_nickname.Agent.Machine.Hosts.{Ends, run-Ends, shown_in, KnowsClean}
use lan_nickname.Agent.Machine.Refines.{Matches, trace, run-Matches}
use lan_nickname.Agent.Machine.Stop.{stop-Restores}
use lan_nickname.Agent.Machine.{
  Machine, Input, incoming, flush_tick, done, interface_tick, step, run, flush,
}
use lan_nickname.Agent.{hour}
use lan_nickname.Base.Dict.{lookup, insert, Dict}
use lan_nickname.Base.{
  ltb, ◌/◌, ◌%◌, if◌then◌else◌, Bytes, ◌+◌, ◌++◌, ℕ, ◌+◌, ◌-◌, true, List, [], ◌∷◌, ◌≡◌, refl, none,
  some, ok, codes, equal, ne_of_equal, inl, arith,
}
use lan_nickname.Config.State.{temporary_of}
use lan_nickname.Files.Replace.{text_in}
use lan_nickname.Files.{World, works, fails}
use lan_nickname.Hosts.Clean.{IsClean}
use lan_nickname.Hosts.{render}
use lan_nickname.Ssh.Write
use lan_nickname.Store.{Store, prune, refresh, identify}
use lan_nickname.Tests.Files.{before, unmanaged, peer₁-IsClean}
use lan_nickname.Tests.Keeping.{targets, separate, snapshot_json, cache, settings_json}
use lan_nickname.Tests.Values.{
  net, net-PrintsPlain, ascii, json, key, id₁, peer₁, heard, plain_byte,
}
use lan_nickname.Tests.Writing.{system, place, paths, hosts, temporary}

abbrev pub setting : Setting
setting = record {
  system = system;
  net = net;
  quote = λ s. s;
  json = snapshot_json;
  cache = some cache;
  targets = targets;
  ttl = 500;
  sync_hosts = true;
}

-- A number below 100.
abbrev pub decimal : ℕ → Bytes
decimal n = if ltb n 10 then (b'0' + n) ∷ [] else (b'0' + n / 10) ∷ (b'0' + n % 10) ∷ []

abbrev pub dotted : Bytes → Bytes
dotted [] = []
dotted (n ∷ []) = decimal n
dotted (n ∷ m ∷ ip) = decimal n ++ b'.' ∷ dotted (m ∷ ip)

abbrev pub announcer : Announcer
announcer = record {
  unicode = ascii;
  json = json;
  settings_json = settings_json;
  system = system;
  settings = some place;
  cidr = record { parse = λ s. none; to4 = λ s. none; global = λ s. true };
  ip_text = dotted;
  key = key;
}

ready : IsReady setting cache
unfolding equal
ready = record {
  placed = refl;
  given = refl;
  separate = separate;
  cache = record {
    hosts = ne_of_equal cache.path hosts refl;
    hosts_temporary = ne_of_equal cache.path temporary refl;
    keys = ne_of_equal cache.path paths.known_hosts refl;
    keys_temporary = ne_of_equal cache.path (Write.temporary_of paths.known_hosts) refl;
    config = ne_of_equal cache.path paths.config refl;
    config_temporary = ne_of_equal cache.path (Write.temporary_of paths.config) refl;
  };
  hosts_apart = ne_of_equal hosts (temporary_of cache.path) refl;
  keys_apart = ne_of_equal paths.known_hosts (temporary_of cache.path) refl;
  config_apart = ne_of_equal paths.config (temporary_of cache.path) refl;
}

abbrev peers : Store
peers = (id₁, peer₁) ∷ []

-- Two addresses were heard of at 100 and 200.
abbrev pub late : Clock
late = record { pruned = 650; saved = 660; listed = 670 }

-- The cache cannot be written.
abbrev full : World
full = record {
  files = (hosts, before) ∷ [];
  answers = works ∷ fails (some (codes "x")) ∷ [];
  calls = [];
}

flush_files-HasFlushed_example :
    HasFlushed setting cache full.files late
      (prune (650 - 500) peers)
      (flush_files setting late peers full)
flush_files-HasFlushed_example = flush_files-HasFlushed setting cache late peers full ready

abbrev start : Machine
start = record {
  peers = peers;
  dirty = true;
  joined = [];
  log = [];
  world = record { files = (hosts, before) ∷ []; answers = []; calls = [] };
}

-- Only the later address is left.
one_line :
    text_in hosts (flush announcer setting late start).world.files
    ≡ codes
        "127.0.0.1 localhost\n\n# BEGIN lan-nick (managed; do not edit)\n10.0.0.6\tliving-room\t# Living Room\n# END lan-nick\n"
unfolding flush lookup plain_byte
one_line = refl

abbrev inputs : List Input
inputs =
    incoming heard (10 ∷ 0 ∷ 0 ∷ 9 ∷ []) 300
    ∷ flush_tick (record { pruned = 310; saved = 310; listed = 310 })
    ∷ interface_tick (some [])
    ∷ flush_tick late
    ∷ done 700 (record { pruned = 700; saved = 701; listed = 702 })
    ∷ []

abbrev view : Agent.Agent
view = record {
  peers = peers;
  dirty = true;
  saved = [];
  hosts = [];
  ssh = [];
  last = record { saved = true; hosts = true; ssh = true };
}

run-Matches_example :
    Matches
      (Agent.run ascii json key 500 true view (trace announcer setting start inputs))
      (run announcer setting start inputs)
run-Matches_example =
    run-Matches announcer setting view start inputs (record { peers = refl; dirty = refl })

-- The same name with other addresses.
others-IsClean : (d : Dict ℕ) → IsClean (record peer₁ { addresses = d })
others-IsClean d = record {
  label = peer₁-IsClean.label;
  one_line = peer₁-IsClean.one_line;
  no_marker = peer₁-IsClean.no_marker;
}

clean_run : KnowsClean announcer setting start inputs
unfolding KnowsClean step refresh identify insert equal
clean_run =
    let heard_of = others-IsClean (insert (codes "10.0.0.9") 300 peer₁.addresses) in
    (
      (peer₁-IsClean, tt),
      ((heard_of, tt), ((heard_of, tt), ((heard_of, tt), ((heard_of, tt), tt)))),
    )

run-Ends_example :
    Ends announcer setting cache ready before before net-PrintsPlain unmanaged
      (shown_in announcer setting [] start inputs)
      (run announcer setting start inputs)
unfolding equal lookup
run-Ends_example =
    run-Ends announcer setting cache ready before before net-PrintsPlain unmanaged place refl
      (ne_of_equal hosts place.path refl) (ne_of_equal hosts (temporary_of place.path) refl) []
      start inputs clean_run (inl refl)

abbrev stopping : Machine
stopping = flush announcer setting late (record start { peers = prune (600 + hour) peers })

stop-Restores_example :
    render net before (record { updated_at = 670; peers = [] })
    ≡ ok (text_in hosts stopping.world.files)
unfolding flush_files step equal lookup
stop-Restores_example =
    stop-Restores announcer setting cache ready before before net-PrintsPlain unmanaged [] start
      stopping 600 late (record { hosts = ok tt; ssh = ok tt })
      ((omega arith, (omega arith, tt)), tt) (inl refl) refl refl refl
