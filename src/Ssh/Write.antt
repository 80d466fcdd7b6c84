-- ===== src/Ssh/Write.antt =====
-- `syncManagedFile` and `Sync` of internal/sshconfig/sshconfig.go with their writing.
pub mod Both
use lan_nickname.Base.{
  ℕ, ◌+◌, ◌<◌, Bool, true, false, List, [], ◌∷◌, ◌++◌, ◌≡◌, ◌≢◌, refl, ◌∙◌, sym, ap, inl, inr,
  Bool-cases, Option, none, some, Result, ok, err, Bytes, equal, equal_iff, if◌then◌else◌, ◌⊎◌,
  subst, arith, codes, length, length-append, is_empty, ◌&&◌,
}
use lan_nickname.Base.Dict.{Dict, lookup}
use lan_nickname.Files.{
  World, Io, pure, raise, ◌>>=◌, ◌>>◌, from_result, Read, contents, missing, failed, call, asking,
  read_file, found, text_of, after, ignore, ended, text_of,
}
use lan_nickname.Files.Quiet.{
  pure-IsQuiet, ignore-IsQuiet, IsQuiet, call-IsQuiet, read_file-IsQuiet, read_file-eq-ok,
}
use lan_nickname.Files.Replace.{
  replace_with, Replaces, replace_with-Replaces, Updates, Replaces-Updates, after-Updates,
  quiet-Updates, text_in,
}
use lan_nickname.Managed
use lan_nickname.Managed.{render_managed}
use lan_nickname.Ssh.{
  Error, mkdir_failed, write_failed, replace_failed, read_failed, paths_required, render_failed,
  Action, keep, replace, plan_file, compare_texts, unreadable, absent, no_paths, Paths,
  trusted_peers, render_known_hosts, render_config, keys_begin_marker, keys_end_marker,
  config_begin_marker, config_end_marker,
}
use lan_nickname.Store.{Peer, Snapshot}

-- `path + ".lan-nick.tmp"`
abbrev pub temporary_of : Bytes → Bytes
temporary_of path = path ++ codes ".lan-nick.tmp"

-- The writing of `syncManagedFile`; only the mode of the new file depends on `os.Stat`.
unfoldable pub perform : Bytes → Action → Io Error (Unit {0})
unfolding call replace_with
perform path keep = pure tt
perform path (replace s) = do
  call (asking path) mkdir_failed
  ignore (call (asking path) write_failed)
  replace_with (temporary_of path) path s write_failed (pure tt) replace_failed

unfoldable pub sync_managed_file : Bytes → Bytes → Bytes → Bytes → Bool → Io Error (Unit {0})
unfolding read_file plan_file perform
sync_managed_file path begin end body prepend = do
  r ← read_file path
  a ← from_result (plan_file r begin end body prepend)
  perform path a

unfoldable pub sync_files : (Bytes → Bytes) → Paths → Snapshot → Io Error (Unit {0})
unfolding sync_managed_file trusted_peers render_known_hosts render_config
sync_files quote paths snapshot = if no_paths paths then raise paths_required else do
  let peers = trusted_peers snapshot
  sync_managed_file paths.known_hosts keys_begin_marker keys_end_marker (render_known_hosts peers)
      false
  sync_managed_file paths.config config_begin_marker config_end_marker
      (render_config quote paths peers) true

pub temporary_apart : (path : Bytes) → path ≢ temporary_of path
temporary_apart path e =
    let longer = length-append path (codes ".lan-nick.tmp") in
    absurd (omega (arith, longer, ap length e))

abbrev pub Gives : Result Managed.Error Bytes → Bytes → Type 0
Gives m s = m ≡ ok s

abbrev pub Written : Bytes → Bytes → Bytes → Bool → Bytes → Bytes → Type 0
Written begin end body prepend old = Gives (render_managed old begin end body prepend)

module _ (path : Bytes) (old : Dict Bytes) (P : Bytes → Type 0) where
  perform-Updates :
      (a : Action) (w : World)
      → w.files ≡ old
      → (a ≡ keep → P (text_in path old))
      → ((s : Bytes) → a ≡ replace s → P s)
      → Updates (temporary_of path) path P old (perform path a w)
  unfolding perform
  perform-Updates keep w same kept put = (rw same (kept refl), λ j np nt. rw same refl)
  perform-Updates (replace s) w same kept put =
      quiet-Updates (temporary_of path) path P old (call (asking path) mkdir_failed) _
        (call-IsQuiet (asking path) mkdir_failed)
        (λ _.
          quiet-Updates (temporary_of path) path P old (ignore (call (asking path) write_failed)) _
            (ignore-IsQuiet (call (asking path) write_failed)
              (call-IsQuiet (asking path) write_failed))
            (λ _ w' same'.
              Replaces-Updates (temporary_of path) path P old s
                (replace_with (temporary_of path) path s write_failed (pure tt) replace_failed w')
                (put s refl)
                (replace_with-Replaces (temporary_of path) path s (temporary_apart path) old
                  write_failed (pure tt) replace_failed w' (pure-IsQuiet tt) same')))
        w same

-- What a planned action means for a file of the given text.
abbrev Means : (Bytes → Type 0) → Bytes → Action → Type 0
Means P current keep = P current
Means P current (replace s) = P s

choice-Means :
    (P : Bytes → Type 0) (current updated : Bytes)
    → P updated
    → Means P current (if equal current updated then keep else replace updated)
choice-Means P current updated p = elim (Bool-cases (equal current updated)) [
  | inl same ↦ rw same (subst P (sym ((equal_iff current updated).0 same)) p)
  | inr other ↦ rw other p
]

compare_texts-Means :
    (current : Bytes) (m : Result Managed.Error Bytes) {a : Action}
    → compare_texts current m ≡ ok a
    → Means (Gives m) current a
unfolding compare_texts
compare_texts-Means current (err e) h = cc
compare_texts-Means current (ok updated) h =
    subst (Means (Gives (ok updated)) current) (cc)
      (choice-Means (Gives (ok updated)) current updated refl)

module _ (bt et : Bytes) (prepend : Bool) where
  nothing-Written : Written (b'#' ∷ bt) (b'#' ∷ et) [] prepend [] []
  unfolding render_managed
  nothing-Written = refl

  plan_file-Means :
      (r : Read) (body : Bytes) {a : Action}
      → plan_file r (b'#' ∷ bt) (b'#' ∷ et) body prepend ≡ ok a
      → Means (Written (b'#' ∷ bt) (b'#' ∷ et) body prepend (text_of r)) (text_of r) a
  unfolding plan_file
  plan_file-Means failed body h = cc
  plan_file-Means (contents s) body h =
      compare_texts-Means s (render_managed s (b'#' ∷ bt) (b'#' ∷ et) body prepend) h
  plan_file-Means missing (y ∷ body) h =
      compare_texts-Means [] (render_managed [] (b'#' ∷ bt) (b'#' ∷ et) (y ∷ body) prepend) h
  plan_file-Means missing [] {a} h =
      let kept : keep ≡ a = cc in
      subst (Means (Written (b'#' ∷ bt) (b'#' ∷ et) [] prepend []) []) kept nothing-Written

  module _ (path body : Bytes) (old : Dict Bytes) where
    planned-Updates :
        (m : Result Error Action) (w : World)
        → w.files ≡ old
        → ((a : Action)
            → m ≡ ok a
            → Means
                (Written (b'#' ∷ bt) (b'#' ∷ et) body prepend (text_in path old))
                (text_in path old)
                a)
        → Updates
            (temporary_of path)
            path
            (Written (b'#' ∷ bt) (b'#' ∷ et) body prepend (text_in path old))
            old
            (after (m, w) (perform path))
    planned-Updates (err e) w same means = λ j ne. rw same refl
    planned-Updates (ok a) w same means =
        perform-Updates path old (Written (b'#' ∷ bt) (b'#' ∷ et) body prepend (text_in path old)) a
          w same
          (λ e.
            subst
              (Means (Written (b'#' ∷ bt) (b'#' ∷ et) body prepend (text_in path old))
                (text_in path old))
              e (means a refl))
          (λ s e.
            subst
              (Means (Written (b'#' ∷ bt) (b'#' ∷ et) body prepend (text_in path old))
                (text_in path old))
              e (means a refl))

    read-Means :
        (r : Read)
        → (r ≡ failed) ⊎ (r ≡ found (lookup path old))
        → (a : Action) → plan_file r (b'#' ∷ bt) (b'#' ∷ et) body prepend ≡ ok a
        → Means
            (Written (b'#' ∷ bt) (b'#' ∷ et) body prepend (text_in path old))
            (text_in path old)
            a
    unfolding plan_file
    read-Means failed h a e = cc
    read-Means missing (inl f) a e = cc
    read-Means (contents s) (inl f) a e = cc
    read-Means missing (inr f) a e =
        subst (λ x. Means (Written (b'#' ∷ bt) (b'#' ∷ et) body prepend x) x a) (ap text_of f)
          (plan_file-Means missing body e)
    read-Means (contents s) (inr f) a e =
        subst (λ x. Means (Written (b'#' ∷ bt) (b'#' ∷ et) body prepend x) x a) (ap text_of f)
          (plan_file-Means (contents s) body e)

-- However the system answers, for markers that begin with `#`: if the update succeeds, the file holds what
-- its old text renders to, a missing file standing for an empty one; if not, it is as it was. No other file
-- is touched but the temporary beside it.
pub sync_managed_file-Updates :
    (path bt et body : Bytes) (prepend : Bool) (w : World)
    → Updates
        (temporary_of path)
        path
        (Written (b'#' ∷ bt) (b'#' ∷ et) body prepend (text_in path w.files))
        w.files
        (sync_managed_file path (b'#' ∷ bt) (b'#' ∷ et) body prepend w)
unfolding sync_managed_file
sync_managed_file-Updates path bt et body prepend w =
    after-Updates (temporary_of path) path
      (Written (b'#' ∷ bt) (b'#' ∷ et) body prepend (text_in path w.files)) w.files (read_file path)
      _ (read_file-IsQuiet Error path) w refl
      (λ r w' e same.
        planned-Updates bt et prepend path body w.files
          (plan_file r (b'#' ∷ bt) (b'#' ∷ et) body prepend) w' same
          (read-Means bt et prepend path body w.files r (read_file-eq-ok Error path w r e)))
