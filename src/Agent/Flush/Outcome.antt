-- ===== src/Agent/Flush/Outcome.antt =====
-- What a flush leaves in the files.
use lan_nickname.Base.{
  subst, ◌-◌, true, false, ◌++◌, ◌≡◌, ◌≢◌, refl, sym, ◌∙◌, Option, none, some, Result, ok, err,
  Bytes, codes, if◌then◌else◌,
}
use lan_nickname.Agent.Flush.{Setting, Clock, Flushed, flush_files, publish_after, with_saved}
use lan_nickname.Base.Dict.{Dict, lookup}
use lan_nickname.Config.Load.{Place}
use lan_nickname.Config.State.{temporary_of, temporary_apart}
use lan_nickname.Files.Replace.{Updates, Updates-others, text_in}
use lan_nickname.Files.{World}
use lan_nickname.Publish.{
  Published-from, Targets, publish, AreSeparate, IsOther, Published, HostsDone, publish-Published,
  publish-others,
}
use lan_nickname.Publish
use lan_nickname.Ssh.{no_paths}
use lan_nickname.Store.Cache
use lan_nickname.Store.Cache.Again.{save-Updates}
use lan_nickname.Store.Cache.{save}
use lan_nickname.Store.{Store, Snapshot, prune, take_snapshot}

-- The cache file, its temporary and the published files are different.
pub record IsReady (E : Setting) (p : Place) : Type 0 where
  pub placed : E.cache ≡ some p
  pub given : no_paths E.targets.paths ≡ false
  pub separate : AreSeparate E.targets
  pub cache : IsOther E.targets p.path
  pub hosts_apart : E.targets.hosts ≢ temporary_of p.path
  pub keys_apart : E.targets.paths.known_hosts ≢ temporary_of p.path
  pub config_apart : E.targets.paths.config ≢ temporary_of p.path

module _ (E : Setting) (p : Place) (old : Dict Bytes) where
  abbrev pub Saved : Snapshot → Result Cache.Error (Unit {0}) → World → Type 0
  Saved snapshot (ok _) w = text_in p.path w.files ≡ E.json.marshal snapshot ++ codes "\n"
  Saved snapshot (err e) w = lookup p.path w.files ≡ lookup p.path old

  abbrev pub Shown : Snapshot → Option Publish.Outcome → World → Type 0
  Shown snapshot none w =
      (E.sync_hosts ≡ false) × (lookup E.targets.hosts w.files ≡ lookup E.targets.hosts old)
  Shown snapshot (some o) w = Published E.net E.quote E.targets snapshot old (o, w)

  -- What a flush has done to the old files.
  pub record HasFlushed (c : Clock) (kept : Store) (r : Flushed × World) : Type 0 where
    pub peers : r.0.peers ≡ kept
    pub saved : Saved (take_snapshot kept c.saved) r.0.saved r.1
    pub shown : Shown (take_snapshot kept c.listed) r.0.published r.1

  Saved-then :
      (snapshot : Snapshot) (r : Result Cache.Error (Unit {0}) × World) (x : World)
      → p.path ≢ temporary_of p.path
      → Updates (temporary_of p.path) p.path (λ s. s ≡ E.json.marshal snapshot ++ codes "\n") old r
      → lookup p.path x.files ≡ lookup p.path r.1.files
      → Saved snapshot r.0 x
  Saved-then snapshot (ok _, w) x ne h same = rw same (h.0)
  Saved-then snapshot (err e, w) x ne h same = same ∙ h p.path ne

  module _ (ready : IsReady E p) (c : Clock) (kept : Store) where
    abbrev Text : Bytes → Type 0
    Text s = s ≡ E.json.marshal (take_snapshot kept c.saved) ++ codes "\n"

    published-HasFlushed :
        (r : Result Cache.Error (Unit {0}) × World)
        → p.path ≢ temporary_of p.path
        → Updates (temporary_of p.path) p.path Text old r
        → HasFlushed c kept (
            with_saved kept r.0 (publish E.net E.quote E.targets (take_snapshot kept c.listed) r.1))
    published-HasFlushed r ne h =
        let snapshot = take_snapshot kept c.listed in
        let after = publish E.net E.quote E.targets snapshot r.1 in
        let others = λ (j : Bytes). Updates-others (temporary_of p.path) p.path Text old r j h in
        record {
          peers = refl;
          saved = Saved-then (take_snapshot kept c.saved) r after.1 ne h (
              publish-others E.net E.quote E.targets snapshot r.1 p.path
                ready.separate.hosts_temporary ready.cache);
          shown =
              Published-from E.net E.quote E.targets snapshot old r.1.files after
                (others E.targets.hosts (λ e. ready.cache.hosts (sym e)) ready.hosts_apart)
                (others E.targets.paths.known_hosts (λ e. ready.cache.keys (sym e))
                  ready.keys_apart)
                (others E.targets.paths.config (λ e. ready.cache.config (sym e)) ready.config_apart)
                (publish-Published E.net E.quote E.targets snapshot r.1 ready.given ready.separate);
        }

    silent-HasFlushed :
        (r : Result Cache.Error (Unit {0}) × World)
        → E.sync_hosts ≡ false
        → p.path ≢ temporary_of p.path
        → Updates (temporary_of p.path) p.path Text old r
        → HasFlushed c kept (record { peers = kept; saved = r.0; published = none }, r.1)
    silent-HasFlushed r off ne h = record {
      peers = refl;
      saved = Saved-then (take_snapshot kept c.saved) r r.1 ne h refl;
      shown = (
        off,
        Updates-others (temporary_of p.path) p.path Text old r E.targets.hosts h
            (λ e. ready.cache.hosts (sym e)) ready.hosts_apart,
      );
    }

    saved-HasFlushed :
        (r : Result Cache.Error (Unit {0}) × World)
        → p.path ≢ temporary_of p.path
        → Updates (temporary_of p.path) p.path Text old r
        → HasFlushed c kept (publish_after E kept c.listed r)
    saved-HasFlushed r ne h =
        (elim E.sync_hosts
            as (λ b.
              E.sync_hosts ≡ b
              → HasFlushed c kept (
                  if b
                  then with_saved kept r.0
                      (publish E.net E.quote E.targets (take_snapshot kept c.listed) r.1)
                  else (record { peers = kept; saved = r.0; published = none }, r.1))) [
                    | true ↦ λ on. published-HasFlushed r ne h
                    | false ↦ λ off. silent-HasFlushed r off ne h
                  ])
          refl

-- However the system answers, a flush that reports no failure of a file leaves the pruned peers in it: as the
-- cache's text, and, if hosts are synchronised, as the sections of the hosts file and of the SSH files; a file
-- of which it reports a failure is as it was, but for the known hosts, which may be written already.
pub flush_files-HasFlushed :
    (E : Setting) (p : Place) (c : Clock) (peers : Store) (w : World)
    → IsReady E p
    → HasFlushed E p w.files c (prune (c.pruned - E.ttl) peers) (flush_files E c peers w)
unfolding flush_files
flush_files-HasFlushed E p c peers w ready =
    let kept = prune (c.pruned - E.ttl) peers in
    saved-HasFlushed E p w.files ready c kept (save E.json E.cache E.system c.saved kept w)
      (temporary_apart p.path)
      (subst
        (λ o.
          Updates (temporary_of p.path) p.path (Text E p w.files ready c kept) w.files
            (save E.json o E.system c.saved kept w))
        (sym ready.placed) (save-Updates E.json p E.system c.saved kept w))
