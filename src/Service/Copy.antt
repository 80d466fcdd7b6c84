-- ===== src/Service/Copy.antt =====
-- `installExecutable` of internal/service/install.go.
use lan_nickname.Base.{
  false, not, [], ◌≡◌, ◌≢◌, refl, ap, none, some, Result, ok, err, refuse, Bytes, equal_iff,
  if◌then◌else◌,
}
use lan_nickname.Base.Dict.{Dict, lookup, insert, lookup-insert}
use lan_nickname.Config.State.{temporary_of, temporary_apart}
use lan_nickname.Files.{
  Answer, works, fails, World, Io, pure, ◌>>=◌, ◌>>◌, from_result, Read, contents, missing, failed,
  call, asking, writing, read_file, write_file, written, rename, remove_file, or_else, ignore,
  after, cleaned, found, text_of, first_answer, noted,
}
use lan_nickname.Files.Quiet.{
  call-IsQuiet, read_file-IsQuiet, IsQuiet, from_result-IsQuiet, pure-IsQuiet,
}
use lan_nickname.Files.Replace.{
  Aside, Updates, Replaces-Updates, quiet-Updates, checked-Replaces, remove_file-Aside,
  insert-Aside, text_in, replace_with-Replaces,
}
use lan_nickname.Service.{
  Error, Platform, open_failed, inspect_failed, not_regular, mkdir_failed, create_failed,
  copy_failed, flush_failed, close_failed, chmod_failed, replace_failed, ◌also◌, reported,
  write_definition, write_failed,
}

-- `os.Open`
unfoldable pub opened : Read → Result Error (Unit {0})
opened (contents s) = ok tt
opened missing = err open_failed
opened failed = err open_failed

-- `io.Copy` of the whole source, as it is then, into the temporary.
unfoldable pub copy_text : Bytes → Bytes → Io Error (Unit {0})
unfolding write_file
copy_text source t w = write_file t (text_in source w.files) copy_failed w

-- The copy, the flush and the closing are all done, whatever becomes of the others.
unfoldable pub copy_all : Bytes → Bytes → Io Error (Unit {0})
unfolding copy_text call
copy_all source t =
    copy_text source t also call (asking t) flush_failed also call (asking t) close_failed

-- From the opening of the temporary on.
unfoldable pub copy_to : Bytes → Bytes → Bytes → Io Error (Unit {0})
unfolding copy_all write_file call rename remove_file
copy_to source t destination = do
  write_file t [] create_failed
  or_else (copy_all source t) (ignore (remove_file t copy_failed))
  or_else (call (asking t) chmod_failed) (ignore (remove_file t copy_failed))
  or_else (rename t destination replace_failed) (ignore (remove_file t replace_failed))

unfoldable pub install_executable : Platform → Bytes → Bytes → Io Error (Unit {0})
unfolding read_file opened call copy_to
install_executable P source destination = if P.same_file source destination then pure tt else do
  r ← read_file source
  from_result (opened r)
  call (asking source) inspect_failed
  from_result (refuse (not (P.is_regular source)) not_regular)
  call (asking (P.dir_of destination)) mkdir_failed
  copy_to source (temporary_of destination) destination

module _ (source t destination : Bytes) (other : source ≢ t) (apart : destination ≢ t)
    (old : Dict Bytes) where
  -- What the copying leaves.
  abbrev Copied : Result Error (Unit {0}) × World → Type 0
  Copied (ok _, w) = (lookup t w.files ≡ some (text_in source old)) × Aside t w.files old
  Copied (err _, w) = Aside t w.files old

  also-Copied :
      (n : Io Error (Unit {0})) (r : Result Error (Unit {0}) × World)
      → IsQuiet n
      → Copied r
      → Copied (reported r.0 (n r.1))
  also-Copied n (ok _, w) quiet h = behind (n w) (quiet.unchanged w)
    where
      behind :
          (q : Result Error (Unit {0}) × World) → q.1.files ≡ w.files → Copied (reported (ok tt) q)
      behind (ok _, w') e = (rw e h.0, rw e h.1)
      behind (err f, w') e = rw e h.1
  also-Copied n (err f, w) quiet h = behind (n w) (quiet.unchanged w)
    where
      behind :
          (q : Result Error (Unit {0}) × World) → q.1.files ≡ w.files → Copied (reported (err f) q)
      behind (q, w') e = rw e h

  copy_text-Copied : (w : World) → Aside t w.files old → Copied (copy_text source t w)
  unfolding copy_text write_file
  copy_text-Copied w h = by_answer (first_answer w.answers)
    where
      by_answer :
          (a : Answer)
          → Copied (written t (text_in source w.files) copy_failed a (noted (writing t) w))
      by_answer works = (
        rw lookup-insert
            (rw ((equal_iff t t).1 refl) (ap (λ o. some (text_of (found o))) (h source other))),
        insert-Aside t _ w.files old h,
      )
      by_answer (fails none) = h
      by_answer (fails (some part)) = insert-Aside t part w.files old h

  copy_all-Copied : (w : World) → Aside t w.files old → Copied (copy_all source t w)
  unfolding copy_all
  copy_all-Copied w h =
      also-Copied (call (asking t) close_failed) _ (call-IsQuiet (asking t) close_failed) (
        also-Copied (call (asking t) flush_failed) (copy_text source t w)
          (call-IsQuiet (asking t) flush_failed) (copy_text-Copied w h))

  abbrev New : Bytes → Type 0
  New s = s ≡ text_in source old

  finish-Updates :
      (r : Result Error (Unit {0}) × World)
      → Copied r
      → Updates t destination New old (
          after (cleaned r (ignore (remove_file t copy_failed))) (λ _.
            or_else (call (asking t) chmod_failed) (ignore (remove_file t copy_failed))
            >> or_else
                (rename t destination replace_failed)
                (ignore (remove_file t replace_failed))))
  finish-Updates (err e, w) h = remove_file-Aside t copy_failed w old h
  finish-Updates (ok _, w) h =
      let quiet = (call-IsQuiet (asking t) chmod_failed).unchanged w in
      Replaces-Updates t destination New old (text_in source old) _ refl (
        checked-Replaces t destination (text_in source old) apart old copy_failed replace_failed
          (call (asking t) chmod_failed w) (rw quiet h.0) (rw quiet h.1))

  copy_to-Updates :
      (w : World) → w.files ≡ old → Updates t destination New old (copy_to source t destination w)
  unfolding copy_to write_file
  copy_to-Updates w same = by_answer (first_answer w.answers)
    where
      start : Aside t w.files old
      start j ne = rw same refl

      by_answer :
          (a : Answer)
          → Updates t destination New old (
              after (written t [] create_failed a (noted (writing t) w)) (λ _.
                or_else (copy_all source t) (ignore (remove_file t copy_failed))
                >> (or_else (call (asking t) chmod_failed) (ignore (remove_file t copy_failed))
                    >> or_else
                        (rename t destination replace_failed)
                        (ignore (remove_file t replace_failed)))))
      by_answer works =
          let opened_world : World = record (noted (writing t) w) { files = insert t [] w.files } in
          finish-Updates (copy_all source t opened_world)
            (copy_all-Copied opened_world (insert-Aside t [] w.files old start))
      by_answer (fails none) = start
      by_answer (fails (some part)) = insert-Aside t part w.files old start

-- However the system answers, unless the executable is the running one: it is the source's text after a
-- success and what it was after a failure; no file is touched but the temporary beside it.
pub install_executable-Updates :
    (P : Platform) (source destination : Bytes) (old : Dict Bytes) (w : World)
    → P.same_file source destination ≡ false
    → source ≢ temporary_of destination
    → w.files ≡ old
    → Updates
        (temporary_of destination)
        destination
        (λ s. s ≡ text_in source old)
        old
        (install_executable P source destination w)
unfolding install_executable
install_executable-Updates P source destination old w differ other same =
    let t = temporary_of destination in
    let New = λ (s : Bytes). s ≡ text_in source old in
    let regular = refuse (not (P.is_regular source)) not_regular in
    let dir = P.dir_of destination in
    rw differ (
      quiet-Updates t destination New old (read_file source) _ (read_file-IsQuiet Error source)
        (λ r.
          quiet-Updates t destination New old (from_result (opened r)) _
            (from_result-IsQuiet (opened r))
            (λ _.
              quiet-Updates t destination New old (call (asking source) inspect_failed) _
                (call-IsQuiet (asking source) inspect_failed)
                (λ _.
                  quiet-Updates t destination New old (from_result regular) _
                    (from_result-IsQuiet regular)
                    (λ _.
                      quiet-Updates t destination New old (call (asking dir) mkdir_failed) _
                        (call-IsQuiet (asking dir) mkdir_failed)
                        (λ _.
                          copy_to-Updates source t destination other (temporary_apart destination)
                            old)))))
        w same)

-- The same for a definition of the service.
pub write_definition-Updates :
    (P : Platform) (path s : Bytes) (old : Dict Bytes) (w : World)
    → w.files ≡ old
    → Updates (temporary_of path) path (λ x. x ≡ s) old (write_definition P path s w)
unfolding write_definition
write_definition-Updates P path s old w same =
    quiet-Updates (temporary_of path) path (λ x. x ≡ s) old
      (call (asking (P.dir_of path)) mkdir_failed) _
      (call-IsQuiet (asking (P.dir_of path)) mkdir_failed)
      (λ _ w' same'.
        Replaces-Updates (temporary_of path) path (λ x. x ≡ s) old s _ refl
          (replace_with-Replaces (temporary_of path) path s (temporary_apart path) old write_failed
            (pure tt) replace_failed w' (pure-IsQuiet tt) same'))
      w same
