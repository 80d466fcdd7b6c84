-- ===== src/Ssh/Write/Both.antt =====
-- Both files of a synchronisation.
use lan_nickname.Base.{
  Bool-cases, refl, true, false, ◌≡◌, ◌≢◌, ◌∙◌, sym, inl, inr, Result, ok, err, Bytes, ◌⊎◌,
}
use lan_nickname.Base.Dict.{Dict, lookup}
use lan_nickname.Files.{World, Io, after}
use lan_nickname.Files.Replace.{Updates-others, Updates, text_in}
use lan_nickname.Ssh.{
  Error, no_paths, Paths, trusted_peers, render_known_hosts, render_config, keys_begin_marker,
  keys_end_marker, config_begin_marker, config_end_marker,
}
use lan_nickname.Ssh.Sync.{tail_of}
use lan_nickname.Ssh.Write.{
  temporary_of, temporary_apart, Written, sync_managed_file, sync_files, sync_managed_file-Updates,
}
use lan_nickname.Store.{Snapshot}

-- Neither file is the other or its temporary.
pub record AreApart (paths : Paths) : Type 0 where
  pub files : paths.known_hosts ≢ paths.config
  pub from_keys : paths.config ≢ temporary_of paths.known_hosts
  pub from_config : paths.known_hosts ≢ temporary_of paths.config

module _ (quote : Bytes → Bytes) (paths : Paths) (snapshot : Snapshot) where
  abbrev pub KeysWritten : Bytes → Bytes → Type 0
  KeysWritten =
      Written keys_begin_marker keys_end_marker (render_known_hosts (trusted_peers snapshot)) false

  abbrev pub ConfigWritten : Bytes → Bytes → Type 0
  ConfigWritten =
      Written config_begin_marker config_end_marker
        (render_config quote paths (trusted_peers snapshot)) true

  -- What a synchronisation has done to the two files. Where it fails, the first may be written already.
  abbrev pub Synced : Dict Bytes → Result Error (Unit {0}) × World → Type 0
  Synced old (ok _, w) =
      KeysWritten (text_in paths.known_hosts old) (text_in paths.known_hosts w.files)
      × ConfigWritten (text_in paths.config old) (text_in paths.config w.files)
  Synced old (err _, w) =
      ((lookup paths.known_hosts w.files ≡ lookup paths.known_hosts old)
        ⊎ KeysWritten (text_in paths.known_hosts old) (text_in paths.known_hosts w.files))
      × (lookup paths.config w.files ≡ lookup paths.config old)

  module _ (apart : AreApart paths) (old : Dict Bytes) where
    abbrev sync_config : Io Error (Unit {0})
    sync_config =
        sync_managed_file paths.config config_begin_marker config_end_marker
          (render_config quote paths (trusted_peers snapshot)) true

    both-Synced :
        (w : World) (r : Result Error (Unit {0}) × World)
        → KeysWritten (text_in paths.known_hosts old) (text_in paths.known_hosts w.files)
        → lookup paths.config w.files ≡ lookup paths.config old
        → Updates
            (temporary_of paths.config)
            paths.config
            (ConfigWritten (text_in paths.config w.files))
            w.files
            r
        → Synced old r
    both-Synced w (ok _, w') keys same (written, others) =
        (rw (others paths.known_hosts apart.files apart.from_config) keys, rw same at written)
    both-Synced w (err e, w') keys same h = (
      inr (rw (h paths.known_hosts apart.from_config) keys),
      h paths.config (temporary_apart paths.config) ∙ same,
    )

    second_Synced :
        (r : Result Error (Unit {0}) × World)
        → Updates
            (temporary_of paths.known_hosts)
            paths.known_hosts
            (KeysWritten (text_in paths.known_hosts old))
            old
            r
        → Synced old (after r (λ _. sync_config))
    second_Synced (err e, w) h = (
      inl (h paths.known_hosts (temporary_apart paths.known_hosts)),
      h paths.config apart.from_keys,
    )
    second_Synced (ok _, w) (keys, others) =
        both-Synced w (sync_config w) keys
          (others paths.config (λ e. apart.files (sym e)) apart.from_keys)
          (sync_managed_file-Updates paths.config (tail_of config_begin_marker)
            (tail_of config_end_marker) (render_config quote paths (trusted_peers snapshot)) true w)

  -- However the system answers, if all paths are given and apart: a synchronisation that succeeds leaves
  -- both files as their old texts render to with the trusted peers; one that fails leaves the configuration
  -- as it was, and the known hosts as they were or rendered.
  pub sync_files-Synced :
      (w : World)
      → no_paths paths ≡ false
      → AreApart paths
      → Synced w.files (sync_files quote paths snapshot w)
  unfolding sync_files
  sync_files-Synced w given apart = rw given (
      second_Synced apart w.files
        (sync_managed_file paths.known_hosts keys_begin_marker keys_end_marker
          (render_known_hosts (trusted_peers snapshot)) false w)
        (sync_managed_file-Updates paths.known_hosts (tail_of keys_begin_marker)
          (tail_of keys_end_marker) (render_known_hosts (trusted_peers snapshot)) false w))

  -- A synchronisation touches only the two files and their temporaries.
  pub sync_files-others :
      (w : World) (j : Bytes)
      → j ≢ paths.known_hosts
      → j ≢ temporary_of paths.known_hosts
      → j ≢ paths.config
      → j ≢ temporary_of paths.config
      → lookup j (sync_files quote paths snapshot w).1.files ≡ lookup j w.files
  unfolding sync_files
  sync_files-others w j nk nkt nc nct = elim (Bool-cases (no_paths paths)) [
    | inl absent ↦ rw absent refl
    | inr given ↦ rw given (behind (first w) (keys w))
  ]
    where
      first : Io Error (Unit {0})
      first =
          sync_managed_file paths.known_hosts keys_begin_marker keys_end_marker
            (render_known_hosts (trusted_peers snapshot)) false

      second : Io Error (Unit {0})
      second =
          sync_managed_file paths.config config_begin_marker config_end_marker
            (render_config quote paths (trusted_peers snapshot)) true

      keys : (x : World) → lookup j (first x).1.files ≡ lookup j x.files
      keys x =
          Updates-others (temporary_of paths.known_hosts) paths.known_hosts
            (KeysWritten (text_in paths.known_hosts x.files)) x.files (first x) j
            (sync_managed_file-Updates paths.known_hosts (tail_of keys_begin_marker)
              (tail_of keys_end_marker) (render_known_hosts (trusted_peers snapshot)) false x)
            nk nkt

      configured : (x : World) → lookup j (second x).1.files ≡ lookup j x.files
      configured x =
          Updates-others (temporary_of paths.config) paths.config
            (ConfigWritten (text_in paths.config x.files)) x.files (second x) j
            (sync_managed_file-Updates paths.config (tail_of config_begin_marker)
              (tail_of config_end_marker) (render_config quote paths (trusted_peers snapshot)) true
              x)
            nc nct

      behind :
          (r : Result Error (Unit {0}) × World)
          → lookup j r.1.files ≡ lookup j w.files
          → lookup j (after r (λ _. second)).1.files ≡ lookup j w.files
      behind (ok _, x) e = configured x ∙ e
      behind (err f, x) e = e
