-- ===== src/Hosts/Sync.antt =====
-- `Sync` of internal/hosts/hosts.go: the hosts file is replaced through a temporary one beside it.
use lan_nickname.Base.{
  ◌≡◌, ◌≢◌, refl, ◌∙◌, sym, ap, inl, inr, Bool-cases, Result, ok, err, Bytes, equal, equal_iff,
  if◌then◌else◌, ◌⊎◌, subst,
}
use lan_nickname.Base.Dict.{Dict, lookup}
use lan_nickname.Files.{
  World, Io, pure, ◌>>=◌, ◌>>◌, from_result, Read, contents, missing, failed, call, asking,
  read_file, found, text_of, after,
}
use lan_nickname.Files.Quiet.{pure-IsQuiet, call-IsQuiet, read_file-IsQuiet, read_file-eq-ok}
use lan_nickname.Files.Replace.{
  replace_with, replace_with-Replaces, Updates, Replaces-Updates, after-Updates, text_in,
}
use lan_nickname.Hosts.{Net, render}
use lan_nickname.Managed
use lan_nickname.Store.{Snapshot}

pub data Error : Type 0 where
  read_failed stat_failed write_failed replace_failed : Error
  render_failed : Managed.Error → Error

-- What `os.ReadFile` gives without an error.
unfoldable pub present : Read → Result Error Bytes
present (contents s) = ok s
present missing = err read_failed
present failed = err read_failed

abbrev pub rendered : Result Managed.Error Bytes → Result Error Bytes
rendered (ok s) = ok s
rendered (err e) = err (render_failed e)

-- The hosts file is replaced if its text changes.
unfoldable pub publish : Bytes → Bytes → Bytes → Bytes → Io Error (Unit {0})
unfolding call replace_with equal
publish temporary path current updated =
    if equal current updated
    then pure tt
    else call (asking path) stat_failed
      >> replace_with temporary path updated write_failed (pure tt) replace_failed

-- `Sync` behind the reading.
unfoldable pub sync_read : Net → Bytes → Bytes → Snapshot → Read → Io Error (Unit {0})
unfolding present render publish
sync_read N temporary path snapshot r = do
  current ← from_result (present r)
  updated ← from_result (rendered (render N current snapshot))
  publish temporary path current updated

unfoldable pub sync : Net → Bytes → Bytes → Snapshot → Io Error (Unit {0})
unfolding read_file sync_read
sync N temporary path snapshot = read_file path >>= sync_read N temporary path snapshot

-- What the file holds after an update: what its old text renders to.
abbrev pub Rendered : Net → Snapshot → Bytes → Bytes → Type 0
Rendered N snapshot old new = render N old snapshot ≡ ok new

module _ (t path : Bytes) (apart : path ≢ t) (old : Dict Bytes) where
  publish-Updates :
      (P : Bytes → Type 0) (current updated : Bytes) (w : World)
      → P updated
      → text_in path old ≡ current
      → w.files ≡ old
      → Updates t path P old (publish t path current updated w)
  unfolding publish
  publish-Updates P current updated w p there same = elim (Bool-cases (equal current updated)) [
    | inl equals ↦ rw equals (
      rw same (subst P (sym (there ∙ (equal_iff current updated).0 equals)) p),
      λ j np nt. rw same refl,
    )
    | inr differs ↦ rw differs (
        after-Updates t path P old (call (asking path) stat_failed) _
          (call-IsQuiet (asking path) stat_failed) w same
          (λ a w' e same'.
            Replaces-Updates t path P old updated
              (replace_with t path updated write_failed (pure tt) replace_failed w') p
              (replace_with-Replaces t path updated apart old write_failed (pure tt) replace_failed
                w' (pure-IsQuiet tt) same')))
  ]

  module _ (N : Net) (snapshot : Snapshot) where
    rendered-Updates :
        (m : Result Managed.Error Bytes) (w : World)
        → render N (text_in path old) snapshot ≡ m
        → w.files ≡ old
        → Updates t path
            (Rendered N snapshot (text_in path old))
            old
            (after (rendered m, w) (publish t path (text_in path old)))
    rendered-Updates (ok s) w e same =
        publish-Updates (Rendered N snapshot (text_in path old)) (text_in path old) s w e refl same
    rendered-Updates (err f) w e same = λ j ne. rw same refl

    sync_read-Updates :
        (r : Read) (w : World)
        → (r ≡ failed) ⊎ (r ≡ found (lookup path old))
        → w.files ≡ old
        → Updates t path
            (Rendered N snapshot (text_in path old))
            old
            (sync_read N t path snapshot r w)
    unfolding sync_read present
    sync_read-Updates missing w h same = λ j ne. rw same refl
    sync_read-Updates failed w h same = λ j ne. rw same refl
    sync_read-Updates (contents s) w (inl e) same = cc
    sync_read-Updates (contents s) w (inr e) same =
        let text : text_in path old ≡ s = ap text_of (sym e) in
        subst
          (λ x.
            Updates t path (Rendered N snapshot (text_in path old)) old
              (after (rendered (render N x snapshot), w) (publish t path x)))
          text (rendered-Updates (render N (text_in path old) snapshot) w refl same)

-- However the system answers: if the synchronisation succeeds, the hosts file holds what its old text
-- renders to, and if not, its old text; no other file is touched but the temporary beside it.
pub sync-Updates :
    (N : Net) (t path : Bytes) (snapshot : Snapshot) (w : World)
    → path ≢ t
    → Updates t path (Rendered N snapshot (text_in path w.files)) w.files (sync N t path snapshot w)
unfolding sync
sync-Updates N t path snapshot w apart =
    after-Updates t path (Rendered N snapshot (text_in path w.files)) w.files (read_file path)
      (sync_read N t path snapshot) (read_file-IsQuiet Error path) w refl
      (λ r w' e same.
        sync_read-Updates t path apart w.files N snapshot r w' (read_file-eq-ok Error path w r e)
          same)
