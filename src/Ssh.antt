-- ===== src/Ssh.antt =====
-- internal/sshconfig/sshconfig.go: SSH client aliases and trusted host keys for the peers.
-- `quote` is `quotePath`, that is `strconv.Quote` of a path with slashes.
pub mod Trust
pub mod Plain
pub mod Sync
pub mod Write
use lan_nickname.Base.{
  ℕ, ◌+◌, Bool, true, false, not, ◌&&◌, ◌||◌, List, [], ◌∷◌, ◌++◌, Option, none, some, Result, ok,
  err, ◌>>=◌, ◌>>◌, refuse, ◌==◌, equal, if◌then◌else◌, Bytes, length, is_empty, codes,
}
use lan_nickname.Config.{is_hex}
pub use lan_nickname.Files.{Read, contents, missing, failed, text_of}
use lan_nickname.Managed
use lan_nickname.Managed.{render_managed}
use lan_nickname.Protocol.HostKey.{KeyError, validate_key}
use lan_nickname.Store.{Peer, Snapshot, str_lt, sort}

abbrev pub config_begin_marker : Bytes
config_begin_marker = codes "# BEGIN lan-nick SSH aliases (managed; do not edit)"

abbrev pub config_end_marker : Bytes
config_end_marker = codes "# END lan-nick SSH aliases"

abbrev pub keys_begin_marker : Bytes
keys_begin_marker = codes "# BEGIN lan-nick SSH host keys (managed; do not edit)"

abbrev pub keys_end_marker : Bytes
keys_end_marker = codes "# END lan-nick SSH host keys"

pub record Paths : Type 0 where
  pub config : Bytes
  pub known_hosts : Bytes
  pub null_device : Bytes

pub data Error : Type 0 where
  paths_required read_failed mkdir_failed write_failed replace_failed : Error
  render_failed : Managed.Error → Error

-- `counts[alias]`
unfoldable pub count_alias : Bytes → List Peer → ℕ
unfolding equal
count_alias alias [] = 0
count_alias alias (p ∷ ps) = (if equal p.alias_name alias then 1 else 0) + count_alias alias ps

unfoldable pub valid_machine_id : Bytes → Bool
unfolding is_hex
valid_machine_id id = if not (length id == 32) then false else is_hex id

abbrev succeeds : {E : Type 0} → Result E (Unit {0}) → Bool
succeeds (ok _) = true
succeeds (err _) = false

-- The tests of the loop of `trustedPeers`; `all` are the peers of the snapshot.
unfoldable pub is_trusted : List Peer → Peer → Bool
unfolding count_alias valid_machine_id validate_key
is_trusted all p =
    if not (count_alias p.alias_name all == 1) || is_empty p.host_key || not (valid_machine_id p.id)
    then false
    else succeeds (validate_key p.host_key)

unfoldable pub select : List Peer → List Peer → List Peer
unfolding is_trusted
select all [] = []
select all (p ∷ ps) = let rest = select all ps in if is_trusted all p then p ∷ rest else rest

abbrev pub alias_lt : Peer → Peer → Bool
alias_lt p q = str_lt p.alias_name q.alias_name

unfoldable pub trusted_peers : Snapshot → List Peer
unfolding select sort str_lt
trusted_peers snapshot = sort alias_lt (select snapshot.peers snapshot.peers)

-- `lan-nick-<id> <key>`
unfoldable pub render_known_hosts : List Peer → Bytes
render_known_hosts [] = []
render_known_hosts (p ∷ ps) =
    codes "lan-nick-" ++ (p.id ++ (b' ' ∷ (p.host_key ++ (b'\n' ∷ render_known_hosts ps))))

module _ (quote : Bytes → Bytes) where
  unfoldable pub host_block : Paths → Peer → Bytes → Bytes
  host_block paths p rest =
      codes "Host "
      ++ (p.alias_name
          ++ (codes "\n  AddressFamily inet\n  CheckHostIP no\n  GlobalKnownHostsFile "
              ++ (quote paths.known_hosts
                  ++ (codes "\n  HostKeyAlias lan-nick-"
                      ++ (p.id
                          ++ (codes "\n  StrictHostKeyChecking yes\n  UserKnownHostsFile "
                              ++ (quote paths.null_device ++ (b'\n' ∷ rest))))))))

  unfoldable pub host_blocks : Paths → List Peer → Bytes
  unfolding host_block
  host_blocks paths [] = codes "Host *\n"
  host_blocks paths (p ∷ ps) = host_block paths p (host_blocks paths ps)

  unfoldable pub render_config : Paths → List Peer → Bytes
  unfolding host_blocks
  render_config paths [] = []
  render_config paths (p ∷ ps) = host_blocks paths (p ∷ ps)

-- What is done with the file: nothing, or a new text through a temporary file.
pub data Action : Type 0 where
  keep : Action
  replace : Bytes → Action

abbrev pub absent : Read → Bool
absent (contents s) = false
absent missing = true
absent failed = false

abbrev pub unreadable : Read → Bool
unreadable failed = true
unreadable _ = false

unfoldable pub compare_texts : Bytes → Result Managed.Error Bytes → Result Error Action
unfolding equal
compare_texts current (err e) = err (render_failed e)
compare_texts current (ok updated) = ok (if equal current updated then keep else replace updated)

-- `syncManagedFile` up to the writing.
unfoldable pub plan_file : Read → Bytes → Bytes → Bytes → Bool → Result Error Action
unfolding compare_texts render_managed
plan_file read begin end body prepend =
    if unreadable read
    then err read_failed
    else if absent read && is_empty body
    then ok keep
    else compare_texts (text_of read) (render_managed (text_of read) begin end body prepend)

abbrev pub no_paths : Paths → Bool
no_paths p = is_empty p.config || is_empty p.known_hosts || is_empty p.null_device

-- `Sync` where all writing succeeds: what is done with the known-hosts file and with the configuration.
unfoldable pub sync :
    (Bytes → Bytes) → Paths → Read → Read → Snapshot → Result Error (Action × Action)
unfolding plan_file trusted_peers render_known_hosts render_config
sync quote paths known config snapshot = do
  refuse (no_paths paths) paths_required
  let peers = trusted_peers snapshot
  a ← plan_file known keys_begin_marker keys_end_marker (render_known_hosts peers) false
  b ← plan_file config config_begin_marker config_end_marker (render_config quote paths peers) true
  ok (a, b)
