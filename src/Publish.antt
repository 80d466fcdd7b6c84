-- ===== src/Publish.antt =====
-- What internal/agent/agent.go and cmd/lan-nick/main.go both do with the peers of a snapshot: `Sync` of the
-- hosts file and then `Sync` of the SSH files, the second also where the first fails.
pub mod Defaults
use lan_nickname.Base.{◌≡◌, ◌≢◌, refl, sym, ◌∙◌, Result, ok, err, Bytes, false}
use lan_nickname.Base.Dict.{Dict, lookup}
use lan_nickname.Files.{World}
use lan_nickname.Files.Replace.{Updates-others, Updates, text_in}
use lan_nickname.Hosts.Sync
use lan_nickname.Hosts.Sync.{Rendered, sync, sync-Updates}
use lan_nickname.Hosts.{Net}
use lan_nickname.Ssh
use lan_nickname.Ssh.Write.Both.{
  AreApart, KeysWritten, ConfigWritten, Synced, sync_files-Synced, sync_files-others,
}
use lan_nickname.Ssh.Write.{sync_files, temporary_of}
use lan_nickname.Ssh.{Paths, no_paths}
use lan_nickname.Store.{Snapshot}

-- The files, with the temporary beside the hosts file.
pub record Targets : Type 0 where
  pub temporary : Bytes
  pub hosts : Bytes
  pub paths : Paths

-- What became of both.
pub record Outcome : Type 0 where
  pub hosts : Result Sync.Error (Unit {0})
  pub ssh : Result Ssh.Error (Unit {0})

abbrev pub both :
    Result Sync.Error (Unit {0}) → Result Ssh.Error (Unit {0}) × World → Outcome × World
both r (q, w) = (record { hosts = r; ssh = q }, w)

module _ (N : Net) (quote : Bytes → Bytes) (T : Targets) (snapshot : Snapshot) where
  unfoldable pub publish : World → Outcome × World
  unfolding sync sync_files
  publish w =
      let first = sync N T.temporary T.hosts snapshot w in
      both first.0 (sync_files quote T.paths snapshot first.1)

-- The three files and their temporaries are different.
pub record AreSeparate (T : Targets) : Type 0 where
  pub hosts_temporary : T.hosts ≢ T.temporary
  pub hosts_keys : T.hosts ≢ T.paths.known_hosts
  pub hosts_keys_temporary : T.hosts ≢ temporary_of T.paths.known_hosts
  pub hosts_config : T.hosts ≢ T.paths.config
  pub hosts_config_temporary : T.hosts ≢ temporary_of T.paths.config
  pub keys_temporary : T.paths.known_hosts ≢ T.temporary
  pub config_temporary : T.paths.config ≢ T.temporary
  pub ssh : AreApart T.paths

-- Another file than these.
pub record IsOther (T : Targets) (j : Bytes) : Type 0 where
  pub hosts : j ≢ T.hosts
  pub hosts_temporary : j ≢ T.temporary
  pub keys : j ≢ T.paths.known_hosts
  pub keys_temporary : j ≢ temporary_of T.paths.known_hosts
  pub config : j ≢ T.paths.config
  pub config_temporary : j ≢ temporary_of T.paths.config

module _ (N : Net) (quote : Bytes → Bytes) (T : Targets) (snapshot : Snapshot) where
  -- What a synchronisation of the hosts file has done to it.
  abbrev pub HostsDone : Dict Bytes → Result Sync.Error (Unit {0}) → World → Type 0
  HostsDone old (ok _) w = Rendered N snapshot (text_in T.hosts old) (text_in T.hosts w.files)
  HostsDone old (err e) w = lookup T.hosts w.files ≡ lookup T.hosts old

  -- What the publication of a snapshot has done to the old files, by what became of its two parts.
  pub record Published (old : Dict Bytes) (r : Outcome × World) : Type 0 where
    pub hosts : HostsDone old r.0.hosts r.1
    pub ssh : Synced quote T.paths snapshot old (r.0.ssh, r.1)

  HostsDone-of :
      (old : Dict Bytes) (r : Result Sync.Error (Unit {0}) × World) (x : World)
      → T.hosts ≢ T.temporary
      → Updates T.temporary T.hosts (Rendered N snapshot (text_in T.hosts old)) old r
      → lookup T.hosts x.files ≡ lookup T.hosts r.1.files
      → HostsDone old r.0 x
  HostsDone-of old (ok _, w) x ne h same = rw same (h.0)
  HostsDone-of old (err e, w) x ne h same = same ∙ h T.hosts ne

  Synced-from :
      (old new : Dict Bytes) (q : Result Ssh.Error (Unit {0}) × World)
      → lookup T.paths.known_hosts new ≡ lookup T.paths.known_hosts old
      → lookup T.paths.config new ≡ lookup T.paths.config old
      → Synced quote T.paths snapshot new q
      → Synced quote T.paths snapshot old q
  Synced-from old new (ok _, x) keys config k = rw (keys, config) at k
  Synced-from old new (err f, x) keys config k = rw (keys, config) at k

  -- What was done to files that agree with older ones.
  pub Published-from :
      (old new : Dict Bytes) (r : Outcome × World)
      → lookup T.hosts new ≡ lookup T.hosts old
      → lookup T.paths.known_hosts new ≡ lookup T.paths.known_hosts old
      → lookup T.paths.config new ≡ lookup T.paths.config old
      → Published new r
      → Published old r
  Published-from old new (o, w) hosts keys config p = record {
    hosts = HostsDone-from o.hosts p.hosts;
    ssh = Synced-from old new (o.ssh, w) keys config p.ssh;
  }
    where
      HostsDone-from : (h : Result Sync.Error (Unit {0})) → HostsDone new h w → HostsDone old h w
      HostsDone-from (ok _) h = rw hosts at h
      HostsDone-from (err e) h = h ∙ hosts

  pub publish-Published :
      (w : World)
      → no_paths T.paths ≡ false
      → AreSeparate T
      → Published w.files (publish N quote T snapshot w)
  unfolding publish
  publish-Published w given apart =
      let first = sync N T.temporary T.hosts snapshot w in
      let second = sync_files quote T.paths snapshot first.1 in
      let updates = sync-Updates N T.temporary T.hosts snapshot w apart.hosts_temporary in
      let others = λ (j : Bytes).
        Updates-others T.temporary T.hosts (Rendered N snapshot (text_in T.hosts w.files)) w.files
          first j updates in
      record {
        hosts = HostsDone-of w.files first second.1 apart.hosts_temporary updates (
            sync_files-others quote T.paths snapshot first.1 T.hosts apart.hosts_keys
              apart.hosts_keys_temporary apart.hosts_config apart.hosts_config_temporary);
        ssh =
            Synced-from w.files first.1.files second
              (others T.paths.known_hosts (λ e. apart.hosts_keys (sym e)) apart.keys_temporary)
              (others T.paths.config (λ e. apart.hosts_config (sym e)) apart.config_temporary)
              (sync_files-Synced quote T.paths snapshot first.1 given apart.ssh);
      }

  -- No other file is touched.
  pub publish-others :
      (w : World) (j : Bytes)
      → T.hosts ≢ T.temporary
      → IsOther T j
      → lookup j (publish N quote T snapshot w).1.files ≡ lookup j w.files
  unfolding publish
  publish-others w j ne o =
      let first = sync N T.temporary T.hosts snapshot w in
      sync_files-others quote T.paths snapshot first.1 j o.keys o.keys_temporary o.config
        o.config_temporary
      ∙ Updates-others T.temporary T.hosts (Rendered N snapshot (text_in T.hosts w.files)) w.files
          first j (sync-Updates N T.temporary T.hosts snapshot w ne) o.hosts o.hosts_temporary
