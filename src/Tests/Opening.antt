-- ===== src/Tests/Opening.antt =====
-- Runs of the agent from its options on.
use lan_nickname.Agent
use lan_nickname.Agent.Announce.{Local}
use lan_nickname.Agent.Flush.{Setting}
use lan_nickname.Files.{works, fails}
use lan_nickname.Agent.Open.Refused.{refused_files}
use lan_nickname.Agent.Open.{open_agent, no_socket, Ending, refused, went, run_agent, bad_options}
use lan_nickname.Base.Duration.{pos}
use lan_nickname.Agent.Machine.{running, stopped, failed, incoming, flush_tick, done}
use lan_nickname.Agent.{hour}
use lan_nickname.Base.Dict.{lookup}
use lan_nickname.Base.{Bytes, true, [], ◌∷◌, ◌≡◌, refl, none, some, codes}
use lan_nickname.Files.Replace.{text_in}
use lan_nickname.Files.{World}
use lan_nickname.Tests.Files.{before}
use lan_nickname.Tests.Keeping.{settings_json, machine}
use lan_nickname.Tests.Values.{heard, plain_byte}
use lan_nickname.Tests.Writing.{place, paths, hosts}
use lan_nickname.Tests.Running.{setting, announcer, late}

abbrev options : Agent.Settings
options = record {
  port = Agent.default_port;
  interval = Agent.default_interval;
  ttl = Agent.default_ttl;
  hosts_path = hosts;
  ssh_paths = paths;
  sync_hosts = true;
}

-- The same time to live.
abbrev long_lived : Setting
long_lived = record setting { ttl = 16_000_000_000 }

-- No interface is listed.
abbrev local : Local
local = record {
  host = some (codes "a");
  random = none;
  listed = some [];
  now = 10;
  clock = λ k. 10;
}

-- The settings are there, and no key file is.
abbrev installed : World
installed = record {
  files = (place.path, settings_json.marshal machine) ∷ (hosts, before) ∷ [];
  answers = [];
  calls = [];
}

abbrev hosts_after : Ending → Bytes
hosts_after (went (running m)) = text_in hosts m.world.files
hosts_after (went (stopped m)) = text_in hosts m.world.files
hosts_after (went (failed m)) = []
hosts_after (refused e w) = []

-- A machine is heard of and published, and behind the stop its section is empty.
heard_of :
    hosts_after (
      run_agent announcer long_lived local late
        (incoming heard (10 ∷ 0 ∷ 0 ∷ 9 ∷ []) 300 ∷ flush_tick late ∷ [])
        options
        []
        10
        installed)
    ≡ codes
        "127.0.0.1 localhost\n\n# BEGIN lan-nick (managed; do not edit)\n10.0.0.9\tliving-room\t# Living Room\n# END lan-nick\n"
unfolding run_agent lookup plain_byte
heard_of = refl

gone_again :
    hosts_after (
      run_agent announcer long_lived local late
        (incoming heard (10 ∷ 0 ∷ 0 ∷ 9 ∷ []) 300 ∷ flush_tick late ∷ done 700 late ∷ [])
        options
        []
        10
        installed)
    ≡ codes "127.0.0.1 localhost\n\n# BEGIN lan-nick (managed; do not edit)\n# END lan-nick\n"
unfolding run_agent lookup plain_byte
gone_again = refl

short_options :
    run_agent announcer long_lived local late []
      (record options { interval = pos 5 })
      []
      10
      installed
    ≡ refused (bad_options Agent.short_interval) installed
unfolding run_agent
short_options = refl

-- The socket cannot be opened.
abbrev taken : World
taken = record installed { answers = works ∷ works ∷ works ∷ works ∷ fails none ∷ [] }

abbrev at_socket : World
at_socket =
    (open_agent options long_lived (codes "/k1" ∷ codes "/k2" ∷ codes "/k3" ∷ []) 10 taken).1

no_socket_left :
    run_agent announcer long_lived local late [] options
      (codes "/k1" ∷ codes "/k2" ∷ codes "/k3" ∷ [])
      10
      taken
    ≡ refused no_socket at_socket
unfolding run_agent lookup
no_socket_left = refl

refused_files_example : at_socket.files ≡ taken.files
refused_files_example =
    refused_files announcer long_lived local late [] options
      (codes "/k1" ∷ codes "/k2" ∷ codes "/k3" ∷ []) 10 taken at_socket no_socket no_socket_left
