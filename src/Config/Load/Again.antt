-- ===== src/Config/Load/Again.antt =====
-- The settings are stable: what was loaded or created is loaded again.
use lan_nickname.Base.{
  ◌++◌, ◌≡◌, refl, sym, ◌∙◌, ap, Option, none, some, Result, ok, err, Bytes, codes, ◌⊎◌, inl, inr,
  subst,
}
use lan_nickname.Base.Dict.{Dict, lookup}
use lan_nickname.Config
use lan_nickname.Config.{Config, validate}
use lan_nickname.Config.Load.{
  ConfigJson, LoadError, Place, if_valid, save, save_failed, new_id, parsed, new_config, created,
  create, load_read, load_or_create,
}
use lan_nickname.Config.State.{System, SaveError, save_state, temporary_of, save_state-Updates}
use lan_nickname.Files.{
  works, World, pure, wrap, Read, contents, missing, failed, read_file, found, first_answer,
  relabel, after,
}
use lan_nickname.Files.Bind.{>>=-eq-ok}
use lan_nickname.Files.Lines.{line_there}
use lan_nickname.Files.Quiet.{read_file-IsQuiet, read_file-eq-ok}
use lan_nickname.Files.Replace.{Updates}

if_valid-eq-ok :
    {A : Type 0} (a b : A) (m : Result Config.Error (Unit {0}))
    → if_valid a m ≡ ok b
    → (m ≡ ok tt) × (a ≡ b)
if_valid-eq-ok a b (ok _) h = (refl, cc)
if_valid-eq-ok a b (err e) h = cc

module _ (J : ConfigJson) (p : Place) where
  -- The file holds these settings, and they are valid.
  pub record IsKept (cfg : Config) (files : Dict Bytes) : Type 0 where
    pub text : Bytes
    pub there : lookup p.path files ≡ some text
    pub means : J.unmarshal text ≡ some cfg
    pub valid : validate cfg ≡ ok tt

  parsed-eq-ok :
      (o : Option Config) (cfg : Config)
      → parsed o ≡ ok cfg
      → (o ≡ some cfg) × (validate cfg ≡ ok tt)
  parsed-eq-ok none cfg h = cc
  parsed-eq-ok (some c) cfg h =
      let (v, same) = if_valid-eq-ok c cfg (validate c) h in
      (ap some same, ap validate (sym same) ∙ v)

  written-IsKept :
      (cfg : Config) (old : Dict Bytes) (r : Result SaveError (Unit {0}) × World)
      → J.unmarshal (J.marshal cfg ++ codes "\n") ≡ some cfg
      → validate cfg ≡ ok tt
      → Updates (temporary_of p.path) p.path (λ s. s ≡ J.marshal cfg ++ codes "\n") old r
      → (relabel save_failed r).0 ≡ ok tt
      → IsKept cfg (relabel save_failed r).1.files
  written-IsKept cfg old (ok _, w) back v (text, _) h = record {
    text = J.marshal cfg ++ codes "\n";
    there = line_there p.path w.files (J.marshal cfg) text;
    means = back;
    valid = v;
  }
  written-IsKept cfg old (err e, w) back v h q = cc

  then_pure-IsKept :
      (c cfg : Config) (r : Result LoadError (Unit {0}) × World)
      → (c ≡ cfg → r.0 ≡ ok tt → IsKept c r.1.files)
      → (after r (λ _. pure c)).0 ≡ ok cfg
      → IsKept cfg (after r (λ _. pure c)).1.files
  then_pure-IsKept c cfg (ok _, w) kept h =
      let same : c ≡ cfg = cc in subst (λ x. IsKept x w.files) same (kept same refl)
  then_pure-IsKept c cfg (err e, w) kept h = cc

  module _ (S : System) where
    validated-IsKept :
        (cfg : Config) (w : World) (m : Result Config.Error (Unit {0}))
        → J.unmarshal (J.marshal cfg ++ codes "\n") ≡ some cfg
        → validate cfg ≡ m
        → (after
            (if_valid tt m, w)
            (λ _. wrap save_failed (save_state S p.dir p.path (J.marshal cfg ++ codes "\n")))).0
          ≡ ok tt
        → IsKept cfg
            (after
              (if_valid tt m, w)
              (λ _.
                wrap save_failed (save_state S p.dir p.path (J.marshal cfg ++ codes "\n")))).1.files
    validated-IsKept cfg w (ok _) back v h =
        let text = J.marshal cfg ++ codes "\n" in
        written-IsKept cfg w.files (save_state S p.dir p.path text w) back v
          (save_state-Updates S p.dir p.path text (λ s. s ≡ text) w.files w refl refl) h
    validated-IsKept cfg w (err e) back v h = cc

    pub save-IsKept :
        (cfg : Config) (w : World)
        → J.unmarshal (J.marshal cfg ++ codes "\n") ≡ some cfg
        → (save J S (some p) cfg w).0 ≡ ok tt
        → IsKept cfg (save J S (some p) cfg w).1.files
    unfolding save
    save-IsKept cfg w back h = validated-IsKept cfg w (validate cfg) back refl h

    module _ (host random : Option Bytes) where
      created-IsKept :
          (m : Result LoadError Bytes) (cfg : Config) (w : World)
          → J.unmarshal (J.marshal cfg ++ codes "\n") ≡ some cfg
          → (after (m, w) (created J S (some p) host)).0 ≡ ok cfg
          → IsKept cfg (after (m, w) (created J S (some p) host)).1.files
      unfolding created
      created-IsKept (err e) cfg w back h = cc
      created-IsKept (ok id) cfg w back h =
          then_pure-IsKept (new_config J S (some p) host id) cfg
            (save J S (some p) (new_config J S (some p) host id) w)
            (λ same saved.
              save-IsKept (new_config J S (some p) host id) w
                (subst (λ c. J.unmarshal (J.marshal c ++ codes "\n") ≡ some c) (sym same) back)
                saved)
            h

      read-IsKept :
          (r : Read) (cfg : Config) (w : World)
          → J.unmarshal (J.marshal cfg ++ codes "\n") ≡ some cfg
          → (r ≡ failed) ⊎ (r ≡ found (lookup p.path w.files))
          → (load_read J S (some p) host random r w).0 ≡ ok cfg
          → IsKept cfg (load_read J S (some p) host random r w).1.files
      unfolding load_read create
      read-IsKept failed cfg w back from h = cc
      read-IsKept missing cfg w back from h = created-IsKept (new_id random) cfg w back h
      read-IsKept (contents s) cfg w back (inl e) h = cc
      read-IsKept (contents s) cfg w back (inr e) h =
          let (means, valid) = parsed-eq-ok (J.unmarshal s) cfg h in
          record {
            text = s;
            there = from_found (lookup p.path w.files) e;
            means = means;
            valid = valid;
          }
        where
          from_found : (o : Option Bytes) → contents s ≡ found o → o ≡ some s
          from_found none q = cc
          from_found (some x) q = cc

      -- Settings that were loaded or created are valid, and the file holds them, if JSON reads back what it
      -- writes of them.
      load_or_create-IsKept :
          (cfg : Config) (w : World)
          → J.unmarshal (J.marshal cfg ++ codes "\n") ≡ some cfg
          → (load_or_create J S (some p) host random w).0 ≡ ok cfg
          → IsKept cfg (load_or_create J S (some p) host random w).1.files
      unfolding load_or_create
      load_or_create-IsKept cfg w back h =
          let (r, e, same) =
            >>=-eq-ok (read_file p.path) (load_read J S (some p) host random) w h in
          let quiet = (read_file-IsQuiet LoadError p.path).unchanged w in
          rw same (
            read-IsKept r cfg (read_file p.path w).1 back
              (rw quiet (read_file-eq-ok LoadError p.path w r e)) (rw same at h))

      pub kept-load :
          (cfg : Config) (w : World)
          → IsKept cfg w.files
          → first_answer w.answers ≡ works
          → ((load_or_create J S (some p) host random w).0 ≡ ok cfg)
            × ((load_or_create J S (some p) host random w).1.files ≡ w.files)
      unfolding load_or_create read_file load_read
      kept-load cfg w k reads = rw (reads, k.there, k.means, k.valid) (refl, refl)

    -- Once the settings were loaded or created, every later load that can read the file gives the same and
    -- writes nothing, whatever the host's name and the random source give then; if JSON reads back what it
    -- writes of the settings, and nothing else has changed the file.
    pub load_again :
        (host random host' random' : Option Bytes) (cfg : Config) (w later : World)
        → J.unmarshal (J.marshal cfg ++ codes "\n") ≡ some cfg
        → (load_or_create J S (some p) host random w).0 ≡ ok cfg
        → later.files ≡ (load_or_create J S (some p) host random w).1.files
        → first_answer later.answers ≡ works
        → ((load_or_create J S (some p) host' random' later).0 ≡ ok cfg)
          × ((load_or_create J S (some p) host' random' later).1.files ≡ later.files)
    load_again host random host' random' cfg w later back h same reads =
        kept-load host' random' cfg later
          (subst (IsKept cfg) (sym same) (load_or_create-IsKept host random cfg w back h)) reads
