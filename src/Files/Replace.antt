-- ===== src/Files/Replace.antt =====
-- Replacing a file through a temporary one.
use lan_nickname.Base.{
  none, some, Result, ok, err, Bytes, equal_iff, equal_ne, ◌≡◌, ◌≢◌, refl, sym, ◌∙◌,
}
use lan_nickname.Base.Dict.{Dict, lookup, insert, erase, lookup-insert, lookup-erase}
use lan_nickname.Files.{
  relabel, Answer, works, fails, World, Io, ◌>>=◌, ◌>>◌, after, or_else, cleaned, ignore,
  first_answer, noted, write_file, written, rename, renamed, remove_file, removed, removing,
  renaming, writing, found, text_of,
}
use lan_nickname.Files.Quiet.{IsQuiet}

-- `os.WriteFile` of the temporary, checks of it, and `os.Rename`, the temporary being removed where
-- one of the last two fails.
unfoldable pub replace_with :
    {E : Type 0} → Bytes → Bytes → Bytes → E → Io E (Unit {0}) → E → Io E (Unit {0})
unfolding write_file rename remove_file
replace_with temporary path s write_error check rename_error = do
  write_file temporary s write_error
  or_else check (ignore (remove_file temporary write_error))
  or_else (rename temporary path rename_error) (ignore (remove_file temporary rename_error))

-- What a replacement that began with the first files has done, by how it ended: success means the whole
-- new text, failure the old state, and no file is touched but the temporary.
abbrev pub Replaces :
    {E A : Type 0} → Bytes → Bytes → Bytes → Dict Bytes → Result E A × World → Type 0
Replaces temporary path s old (ok _, w) =
    (lookup path w.files ≡ some s)
    × ((j : Bytes) → j ≢ path → j ≢ temporary → lookup j w.files ≡ lookup j old)
Replaces temporary path s old (err _, w) =
    (j : Bytes) → j ≢ temporary → lookup j w.files ≡ lookup j old

-- Where nothing but the temporary differs.
abbrev pub Aside : Bytes → Dict Bytes → Dict Bytes → Type 0
Aside temporary new old = (j : Bytes) → j ≢ temporary → lookup j new ≡ lookup j old

erase-Aside : (t : Bytes) (d old : Dict Bytes) → Aside t d old → Aside t (erase t d) old
erase-Aside t d old h j ne = rw lookup-erase (rw (equal_ne t j (λ e. ne (sym e))) (h j ne))

pub insert-Aside : (t s : Bytes) (d old : Dict Bytes) → Aside t d old → Aside t (insert t s d) old
insert-Aside t s d old h j ne = rw lookup-insert (rw (equal_ne t j (λ e. ne (sym e))) (h j ne))

removed-Aside :
    {E : Type 0} (t : Bytes) (e : E) (a : Answer) (w : World) (old : Dict Bytes)
    → Aside t w.files old
    → Aside t (removed t e a w).1.files old
removed-Aside t e works w old h = erase-Aside t w.files old h
removed-Aside t e (fails part) w old h = h

pub remove_file-Aside :
    {E : Type 0} (t : Bytes) (e : E) (w : World) (old : Dict Bytes)
    → Aside t w.files old
    → Aside t (remove_file t e w).1.files old
unfolding remove_file
remove_file-Aside t e w old h =
    removed-Aside t e (first_answer w.answers) (noted (removing t) w) old h

module _ {E : Type 0} (t path s : Bytes) (apart : path ≢ t) (old : Dict Bytes) where
  renamed-Replaces :
      (e : E) (a : Answer) (w : World)
      → lookup t w.files ≡ some s
      → Aside t w.files old
      → Replaces t path s old (cleaned (renamed t path e a w) (ignore (remove_file t e)))
  renamed-Replaces e works w there h = rw there (
    rw lookup-insert (rw ((equal_iff path path).1 refl) refl),
    λ j np nt.
        rw lookup-insert
          (rw (equal_ne path j (λ q. np (sym q))) (erase-Aside t w.files old h j nt)),
  )
  renamed-Replaces e (fails part) w there h = remove_file-Aside t e w old h

  finish-Replaces :
      (e : E) (w : World)
      → lookup t w.files ≡ some s
      → Aside t w.files old
      → Replaces t path s old (or_else (rename t path e) (ignore (remove_file t e)) w)
  unfolding rename
  finish-Replaces e w there h =
      renamed-Replaces e (first_answer w.answers) (noted (renaming t path) w) there h

  pub checked-Replaces :
      (e f : E) (r : Result E (Unit {0}) × World)
      → lookup t r.1.files ≡ some s
      → Aside t r.1.files old
      → Replaces t path s old (
          after
            (cleaned r (ignore (remove_file t e)))
            (λ _. or_else (rename t path f) (ignore (remove_file t f))))
  checked-Replaces e f (ok _, w) there h = finish-Replaces f w there h
  checked-Replaces e f (err g, w) there h = remove_file-Aside t e w old h

  written-Replaces :
      (e : E) (check : Io E (Unit {0})) (f : E) (a : Answer) (w : World)
      → IsQuiet check
      → w.files ≡ old
      → Replaces t path s old (
          after (written t s e a w) (λ _.
            or_else check (ignore (remove_file t e))
            >> or_else (rename t path f) (ignore (remove_file t f))))
  written-Replaces e check f works w quiet same =
      let start : World = record w { files = insert t s w.files } in
      let kept = quiet.unchanged start in
      checked-Replaces e f (check start)
        (rw kept (rw lookup-insert (rw ((equal_iff t t).1 refl) refl)))
        (rw kept (insert-Aside t s w.files old (λ j ne. rw same refl)))
  written-Replaces e check f (fails none) w quiet same = λ j ne. rw same refl
  written-Replaces e check f (fails (some part)) w quiet same =
      insert-Aside t part w.files old (λ j ne. rw same refl)

  -- However the calls end, the file holds its old text or the whole new one, and the new one exactly if
  -- no error is reported; no other file but the temporary is touched.
  pub replace_with-Replaces :
      (e : E) (check : Io E (Unit {0})) (f : E) (w : World)
      → IsQuiet check
      → w.files ≡ old
      → Replaces t path s old (replace_with t path s e check f w)
  unfolding replace_with write_file
  replace_with-Replaces e check f w quiet same =
      written-Replaces e check f (first_answer w.answers) (noted (writing t) w) quiet same

-- The text of a file; that of a missing one is empty.
abbrev pub text_in : Bytes → Dict Bytes → Bytes
text_in path files = text_of (found (lookup path files))

-- What an update that began with the old files has done: success means a text of which the predicate holds,
-- failure the old state, and no file is touched but the temporary.
abbrev pub Updates :
    {E A : Type 0} → Bytes → Bytes → (Bytes → Type 0) → Dict Bytes → Result E A × World → Type 0
Updates temporary path P old (ok _, w) =
    P (text_in path w.files)
    × ((j : Bytes) → j ≢ path → j ≢ temporary → lookup j w.files ≡ lookup j old)
Updates temporary path P old (err _, w) =
    (j : Bytes) → j ≢ temporary → lookup j w.files ≡ lookup j old

module _ {E B : Type 0} (t path : Bytes) (P : Bytes → Type 0) (old : Dict Bytes) where
  pub Replaces-Updates :
      (s : Bytes) (r : Result E B × World) → P s → Replaces t path s old r → Updates t path P old r
  Replaces-Updates s (ok _, w) p h = (rw h.0 p, h.1)
  Replaces-Updates s (err e, w) p h = h

  -- Behind a quiet part.
  pub after-Updates :
      {A : Type 0} (m : Io E A) (next : A → Io E B)
      → IsQuiet m
      → (w : World) → w.files ≡ old
      → ((a : A) (w' : World) → (m w).0 ≡ ok a → w'.files ≡ old → Updates t path P old (next a w'))
      → Updates t path P old ((m >>= next) w)
  after-Updates {A} m next quiet w same each = behind (m w) refl (quiet.unchanged w ∙ same)
    where
      behind :
          (r : Result E A × World)
          → (m w).0 ≡ r.0
          → r.1.files ≡ old
          → Updates t path P old (after r next)
      behind (ok a, w') e q = each a w' e q
      behind (err f, w') e q = λ j ne. rw q refl

  -- The same where what the part gives does not matter; such parts chain.
  pub quiet-Updates :
      {A : Type 0} (m : Io E A) (next : A → Io E B)
      → IsQuiet m
      → ((a : A) (w : World) → w.files ≡ old → Updates t path P old (next a w))
      → (w : World) → w.files ≡ old
      → Updates t path P old ((m >>= next) w)
  quiet-Updates m next quiet each w same = after-Updates m next quiet w same (λ a w' e. each a w')

-- Quiet parts, and what is made of them.

-- The same for the error of a callee.
pub relabel-Updates :
    {E F B : Type 0} (f : E → F) (t path : Bytes) (P : Bytes → Type 0) (old : Dict Bytes)
    (r : Result E B × World)
    → Updates t path P old r
    → Updates t path P old (relabel f r)
relabel-Updates f t path P old (ok _, w) h = h
relabel-Updates f t path P old (err e, w) h = h

-- What neither is updated nor is the temporary stays as it was.
pub Updates-others :
    {E B : Type 0} (t path : Bytes) (P : Bytes → Type 0) (old : Dict Bytes) (r : Result E B × World)
    (j : Bytes)
    → Updates t path P old r
    → j ≢ path
    → j ≢ t
    → lookup j r.1.files ≡ lookup j old
Updates-others t path P old (ok _, w) j h np nt = h.1 j np nt
Updates-others t path P old (err e, w) j h np nt = h j nt
