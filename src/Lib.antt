-- ===== src/Lib.antt =====
-- lan-nick: machines of a local network announce a nickname, and each keeps the others reachable under
-- the alias of their nickname through its hosts file and its SSH configuration.
--
-- The parts and the files that model them:
--   Files     what the packages do with files through Go's `os`: a monad over the files, the answers that
--             the system will give, and the calls made. Files/Replace is the replacing of a file through a
--             temporary one, which five packages share, Files/Spares the parts of a program that leave a file
--             alone.
--   Config    internal/config/config.go: `Validate`, `ValidateGroup`, `Alias`. Config/Label is what a host
--             label is, Config/Alias what `alias` gives. Config/State is `OwnForInvoker` and the writing of a
--             state file, Config/Load is `LoadOrCreate`, `Save` and `newID`, Config/Place is `Dir`, `Path` and
--             `CachePath` of internal/store/store.go.
--   Protocol  internal/protocol: the announcement (protocol.go: `New`, `Encode`, `Decode`, `Validate`), its
--             host key (ssh_host_key.go, in Protocol/HostKey). Protocol/Valid is what validation
--             establishes, Protocol/Wire the way through a datagram.
--   Store     internal/store/store.go: `Observe`, `Prune`, `Snapshot`, the loop of `Load`, `ReadSnapshot`.
--             Store/Invariant is well-formedness, Store/Heard the view of a store as the times at which
--             addresses were heard of, Store/Order what sorting keeps, Store/Order/Snapshot the order of a
--             snapshot, Store/Cache the cache file.
--   Managed   `renderManaged` of internal/sshconfig/sshconfig.go, the section of a system file between two
--             markers. `Render` of internal/hosts/hosts.go repeats its first half.
--   Hosts     internal/hosts/hosts.go: `Render`. Hosts/Clean is what the lines of a peer must not contain,
--             Hosts/Sync is `Sync`.
--   Ssh       internal/sshconfig/sshconfig.go: `trustedPeers`, the two texts, what `syncManagedFile` and `Sync`
--             plan to write. Ssh/Write is both with their writing.
--   Publish   what the agent's `flush` and the removal of the service both do with a snapshot: `Sync` of the
--             hosts file and then of the SSH files. Publish/Defaults is `DefaultPath`, `DefaultPaths` and
--             `quotePath`.
--   Agent     internal/agent/agent.go: the options, `advertise`, `flush` and the loop of `Run` over the peers
--             alone. Agent/HostKey is ssh_host_key.go beside it, Agent/Receive is `receive`. Agent/Flush is
--             `flush` with its files, Agent/Announce is `joinInterfaces` and `advertise` with their calls of
--             the system, and Agent/Machine the loop over both; Agent/Machine/Refines relates it to the loop
--             over the peers, Agent/Machine/Hosts and Agent/Machine/Stop follow the hosts file through it.
--             Agent/Open is `Run` from its options to its end.
--   Cli       cmd/lan-nick/main.go: the choice of the command and `printPeerMap`. Cli/Change is `status`,
--             `rename` and `setGroup`, Cli/Commands `printMap`, `installBackgroundService` and `serve`.
--             Cli/Cleanup is `uninstallBackgroundService`, where the service, the hosts file and the SSH files
--             come together.
--   Network   internal/network/network.go: `MulticastInterfaces`, `broadcastAddress`. Network/Local is
--             `LocalIPs`.
--   Service   internal/service: install.go (Service, Service/Copy), render.go (Service/Render), and the
--             managers service_linux.go, service_darwin.go and service_windows.go in the modules of these names.
--             Service/Windows is the waits, Service/Windows/Handler the machine of `Execute`,
--             Service/Windows/Install is `Install` and `Uninstall`, and Service/Windows/Start is `Run`.
--   Base, Text  what all parts use: results, maps, durations; and the functions of Go's `strings`, `utf8`,
--             `unicode` and `base64` that the source calls, written out.
--   Tests     runs at concrete inputs.
--
-- An announcement that `Decode` accepts reaches the loop as an event, is observed in the store, and with
-- the next flush the store's snapshot is rendered into the files.
--
-- A string is the list of its bytes. A time is a number of nanoseconds. A map is an association list in
-- any order; the source sorts what it lists of one. A mutex makes each
-- operation of the store one step. What a channel, a ticker or the network brings is an event, and a Go
-- error is a value of the package's own error type. Reading runes takes as many steps as the text has
-- bytes, and every other loop is structural, so nothing runs out of fuel.
--
-- Each call of the system takes the next of the answers that the world holds, so a theorem for every world
-- is one for every way in which calls can fail. A failed write may leave a part of its text; a rename is
-- atomic, and any other failed call changes nothing. Modes of files are left out. A wait for the Windows
-- service manager is a function of what it will see; a bound on its rounds is proved from the clock.
--
-- Parameters: the Unicode tables beyond ASCII (`Unicode`; the lower case of such a rune is no ASCII
-- capital), JSON of announcements, settings and snapshots (`Json`, `ConfigJson`, `SnapshotJson`), the parsing,
-- classes and printing of IP addresses (`Net`, `Cidr`, `Addresses`, `ip_text`), the quoting of paths (`quote`), the
-- environment (`System`), the users' directories (`Directories`), Go's `filepath` and `strconv.Quote`
-- (`Platform`, `Filepath`, `join`), `flag` and what `fmt` prints of durations and numbers (`Printer`), the host's
-- name, the random bytes, and the interfaces that the system lists.
--
-- Not modelled: the tickers, the signals and the two goroutines, which only bring the inputs of the loop; the
-- broadcast option of a socket, one system call per system; and the help text.
pub mod Base
pub mod Text
pub mod Files
pub mod Managed
pub mod Config
pub mod Protocol
pub mod Store
pub mod Ssh
pub mod Hosts
pub mod Publish
pub mod Agent
pub mod Cli
pub mod Network
pub mod Service
pub mod Tests
