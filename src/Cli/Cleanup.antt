-- ===== src/Cli/Cleanup.antt =====
-- `uninstallBackgroundService` of cmd/lan-nick/main.go: behind the removal of the service both the hosts file
-- and the SSH files are synchronised with no peers. `service.Uninstall` is a parameter here, since it depends
-- on the system.
use lan_nickname.Base.{false, [], ◌≡◌, refl, Result, ok, err, Bytes}
use lan_nickname.Base.Dict.{Dict, lookup}
use lan_nickname.Files.{World, Io, ◌>>◌, wrap, after, relabel}
use lan_nickname.Files.Replace.{text_in}
use lan_nickname.Hosts.{Net}
use lan_nickname.Hosts.Sync
use lan_nickname.Hosts.Sync.{Rendered}
use lan_nickname.Publish.{Targets, Outcome, publish, AreSeparate, HostsDone, publish-Published}
use lan_nickname.Ssh
use lan_nickname.Ssh.{no_paths}
use lan_nickname.Ssh.Write.Both.{KeysWritten, ConfigWritten, Synced}
use lan_nickname.Store.{Snapshot}

-- `store.Snapshot{}`
abbrev pub no_peers : Snapshot
no_peers = record { updated_at = 0; peers = [] }

pub data Failure (E : Type 0) : Type 0 where
  not_removed : E → Failure E
  both_left : Sync.Error → Ssh.Error → Failure E
  hosts_left : Sync.Error → Failure E
  ssh_left : Ssh.Error → Failure E

-- What is returned, from what became of both.
unfoldable pub verdict :
    {E : Type 0}
    → Result Sync.Error (Unit {0})
    → Result Ssh.Error (Unit {0})
    → Result (Failure E) (Unit {0})
verdict (err e) (err f) = err (both_left e f)
verdict (err e) (ok _) = err (hosts_left e)
verdict (ok _) (err f) = err (ssh_left f)
verdict (ok _) (ok _) = ok tt

abbrev pub judged : {E : Type 0} → Outcome × World → Result (Failure E) (Unit {0}) × World
judged (o, w) = (verdict o.hosts o.ssh, w)

module _ (N : Net) (quote : Bytes → Bytes) (T : Targets) where
  unfoldable pub clean_up : {E : Type 0} → Io (Failure E) (Unit {0})
  unfolding publish verdict
  clean_up w = judged (publish N quote T no_peers w)

  unfoldable pub uninstall_background : {E : Type 0} → Io E (Unit {0}) → Io (Failure E) (Unit {0})
  unfolding clean_up
  uninstall_background removal = wrap not_removed removal >> clean_up

  module _ (old : Dict Bytes) where
    abbrev HostsCleaned : World → Type 0
    HostsCleaned w = Rendered N no_peers (text_in T.hosts old) (text_in T.hosts w.files)

    abbrev SshCleaned : World → Type 0
    SshCleaned w =
        KeysWritten quote T.paths no_peers (text_in T.paths.known_hosts old)
          (text_in T.paths.known_hosts w.files)
        × ConfigWritten quote T.paths no_peers (text_in T.paths.config old)
            (text_in T.paths.config w.files)

    -- What the clean-up of the old files has done, by the error that it returns.
    abbrev pub Cleaned : {E : Type 0} → Result (Failure E) (Unit {0}) × World → Type 0
    Cleaned (ok _, w) = HostsCleaned w × SshCleaned w
    Cleaned (err (ssh_left e), w) = HostsCleaned w
    Cleaned (err (hosts_left e), w) = (lookup T.hosts w.files ≡ lookup T.hosts old) × SshCleaned w
    Cleaned (err (both_left e f), w) = lookup T.hosts w.files ≡ lookup T.hosts old
    Cleaned (err (not_removed e), w) = w.files ≡ old

    verdict-Cleaned :
        (E : Type 0) (r : Result Sync.Error (Unit {0})) (q : Result Ssh.Error (Unit {0}))
        (w : World)
        → HostsDone N quote T no_peers old r w
        → Synced quote T.paths no_peers old (q, w)
        → Cleaned {E = E} (verdict r q, w)
    unfolding verdict
    verdict-Cleaned E (ok _) (ok _) w h k = (h, k)
    verdict-Cleaned E (ok _) (err f) w h k = h
    verdict-Cleaned E (err e) (ok _) w h k = (h, k)
    verdict-Cleaned E (err e) (err f) w h k = h

  removed-Cleaned :
      {E : Type 0} (r : Result E (Unit {0}) × World)
      → no_paths T.paths ≡ false
      → AreSeparate T
      → Cleaned r.1.files (after (relabel not_removed r) (λ _. clean_up))
  unfolding clean_up
  removed-Cleaned {E} (ok _, w) given apart =
      let done = publish-Published N quote T no_peers w given apart in
      verdict-Cleaned w.files E (publish N quote T no_peers w).0.hosts
        (publish N quote T no_peers w).0.ssh (publish N quote T no_peers w).1 done.hosts done.ssh
  removed-Cleaned (err e, w) given apart = refl

  -- However the system answers, if all paths are given and different: behind the removal of the service, the
  -- hosts file and the SSH files that the returned error does not name are what their old texts render to
  -- with no peers, and a hosts file that it names is as it was; the SSH files are treated so also where the
  -- hosts file cannot be. Where the removal itself fails, the files are left as it leaves them.
  pub uninstall_background-Cleaned :
      {E : Type 0} (removal : Io E (Unit {0})) (w : World)
      → no_paths T.paths ≡ false
      → AreSeparate T
      → Cleaned (removal w).1.files (uninstall_background removal w)
  unfolding uninstall_background
  uninstall_background-Cleaned removal w given apart = removed-Cleaned (removal w) given apart
