-- ===== src/Config/Load/Files.antt =====
-- Loading and saving the settings touches only their file and its temporary.
use lan_nickname.Base.{◌++◌, Option, some, Bytes, codes, ◌≡◌, ◌≢◌, refl}
use lan_nickname.Config.Load.{
  ConfigJson, LoadError, Place, if_valid, save, save_failed, new_id, new_config, created, create,
  parsed, load_read, load_or_create,
}
use lan_nickname.Config.State.{System, save_state, temporary_of, save_state-Updates}
use lan_nickname.Config.{Config, validate}
use lan_nickname.Files.Quiet.{pure-IsQuiet, raise-IsQuiet, from_result-IsQuiet, read_file-IsQuiet}
use lan_nickname.Files.Spares.{Spares, quiet-Spares, Updates-Spares, >>=-Spares, wrap-Spares}
use lan_nickname.Files.{Read, contents, missing, failed, pure, raise, from_result, read_file}

module _ (J : ConfigJson) (S : System) (p : Place) (j : Bytes) (np : j ≢ p.path)
    (nt : j ≢ temporary_of p.path) where
  pub save-Spares : (cfg : Config) → Spares j (save J S (some p) cfg)
  unfolding save
  save-Spares cfg =
      let text = J.marshal cfg ++ codes "\n" in
      >>=-Spares j (from_result (if_valid tt (validate cfg))) _
        (quiet-Spares j (from_result (if_valid tt (validate cfg)))
          (from_result-IsQuiet (if_valid tt (validate cfg))))
        (λ _. wrap-Spares j (save_state S p.dir p.path text) save_failed (
          Updates-Spares j (save_state S p.dir p.path text) (temporary_of p.path) p.path
            (λ w s. s ≡ text)
            (λ w. save_state-Updates S p.dir p.path text (λ s. s ≡ text) w.files w refl refl) np
            nt))

  module _ (host random : Option Bytes) where
    create-Spares : Spares j (create J S (some p) host random)
    unfolding create created
    create-Spares =
        >>=-Spares j (from_result (new_id random)) _
          (quiet-Spares j (from_result (new_id random)) (from_result-IsQuiet (new_id random)))
          (λ id.
            >>=-Spares j (save J S (some p) (new_config J S (some p) host id)) _
              (save-Spares (new_config J S (some p) host id))
              (λ _.
                quiet-Spares j (pure (new_config J S (some p) host id))
                  (pure-IsQuiet (new_config J S (some p) host id))))

    read-Spares : (r : Read) → Spares j (load_read J S (some p) host random r)
    unfolding load_read
    read-Spares (contents s) =
        quiet-Spares j (from_result (parsed (J.unmarshal s)))
          (from_result-IsQuiet (parsed (J.unmarshal s)))
    read-Spares missing = create-Spares
    read-Spares failed =
        quiet-Spares j (raise LoadError.read_failed) (raise-IsQuiet LoadError.read_failed)

    pub load_or_create-Spares : Spares j (load_or_create J S (some p) host random)
    unfolding load_or_create
    load_or_create-Spares =
        >>=-Spares j (read_file p.path) (load_read J S (some p) host random)
          (quiet-Spares j (read_file p.path) (read_file-IsQuiet LoadError p.path)) read-Spares
