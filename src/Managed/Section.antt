-- ===== src/Managed/Section.antt =====
-- What `remove_section` takes out of a text that holds one section.
use lan_nickname.Base.{
  ℕ, suc, ◌+◌, false, [], ◌∷◌, ◌++◌, some, ok, ◌≡◌, refl, sym, arith, ltb, Bytes, length, drop,
  append_assoc, length-append, take-append, get_elem?-append,
}
use lan_nickname.Text.Search.{index, Absent, Free, index-append, Absent-append_stop}
use lan_nickname.Managed.{remove_section, cut_section, skip_newline}

-- Two markers that begin with a byte which recurs in neither, hold no line end, and of which the
-- second does not occur in the first.
pub record IsMarkers (h : ℕ) (begin_tail end_tail : Bytes) : Type 0 where
  pub begin_once : Free h begin_tail
  pub end_once : Free h end_tail
  pub begin_line : Free b'\n' (h ∷ begin_tail)
  pub end_line : Free b'\n' (h ∷ end_tail)
  pub begin_cr : Free b'\r' (h ∷ begin_tail)
  pub end_cr : Free b'\r' (h ∷ end_tail)
  pub apart : Absent (h ∷ begin_tail) (h ∷ end_tail)

drop-append_suc : (xs : Bytes) (y : ℕ) (ys : Bytes) → drop (suc (length xs)) (xs ++ y ∷ ys) ≡ ys
drop-append_suc [] y ys = refl
drop-append_suc (x ∷ xs) y ys = drop-append_suc xs y ys

drop-skip_newline :
    (xs : Bytes) (n : ℕ) (ys : Bytes)
    → n ≡ length xs
    → drop (skip_newline (xs ++ b'\n' ∷ ys) n) (xs ++ b'\n' ∷ ys) ≡ ys
unfolding skip_newline
drop-skip_newline xs n ys e =
    rw (e, get_elem?-append xs b'\n' ys, skip_newline)
      (let one : n + 1 ≡ suc (length xs) = omega arith in rw one (drop-append_suc xs b'\n' ys))

-- A section between two texts is cut out, with the line end behind it.
cut_section-append :
    (pre mid end post : Bytes)
    → cut_section
        (pre ++ (mid ++ (end ++ b'\n' ∷ post)))
        (length end)
        (some (length pre))
        (some (length (pre ++ mid)))
      ≡ ok (pre ++ post)
unfolding cut_section
cut_section-append pre mid end post =
    let size : length (pre ++ mid) + length end ≡ length ((pre ++ mid) ++ end) =
      sym (length-append (pre ++ mid) end) in
    let ordered : ltb (length (pre ++ mid)) (length pre) ≡ false =
      ground (arith, length-append pre mid) in
    let regroup : pre ++ (mid ++ (end ++ b'\n' ∷ post)) ≡ ((pre ++ mid) ++ end) ++ b'\n' ∷ post =
      simp append_assoc in
    rw ordered (rw take-append (rw regroup (rw (drop-skip_newline _ _ post size))))

module _ {h : ℕ} {bt et : Bytes} (m : IsMarkers h bt et) where
  pub remove_section-append :
      (pre body post : Bytes)
      → Absent pre (h ∷ bt)
      → Absent (pre ++ h ∷ bt) (h ∷ et)
      → Absent body (h ∷ et)
      → remove_section
          (h ∷ bt)
          (h ∷ et)
          (pre ++ ((h ∷ bt) ++ b'\n' ∷ (body ++ ((h ∷ et) ++ b'\n' ∷ post))))
        ≡ ok (pre ++ post)
  unfolding remove_section
  remove_section-append pre body post a b c =
      let mid = (h ∷ bt) ++ b'\n' ∷ body in
      let regroup : pre ++ ((h ∷ bt) ++ b'\n' ∷ (body ++ ((h ∷ et) ++ b'\n' ∷ post)))
          ≡ pre ++ (mid ++ ((h ∷ et) ++ b'\n' ∷ post)) =
        simp append_assoc in
      let regroup' : pre ++ (mid ++ ((h ∷ et) ++ b'\n' ∷ post))
          ≡ (pre ++ mid) ++ ((h ∷ et) ++ b'\n' ∷ post) =
        simp append_assoc in
      let absent : Absent (pre ++ mid) (h ∷ et) =
        rw (← append_assoc)
          (Absent-append_stop (pre ++ h ∷ bt) b'\n' body (h ∷ et) m.end_line b c) in
      let first : index (pre ++ (mid ++ ((h ∷ et) ++ b'\n' ∷ post))) (h ∷ bt) ≡ some (length pre) =
        let grouped : mid ++ ((h ∷ et) ++ b'\n' ∷ post)
            ≡ (h ∷ bt) ++ ((b'\n' ∷ body) ++ ((h ∷ et) ++ b'\n' ∷ post)) =
          simp append_assoc in
        rw grouped (index-append pre h bt _ m.begin_once a) in
      let second : index (pre ++ (mid ++ ((h ∷ et) ++ b'\n' ∷ post))) (h ∷ et)
          ≡ some (length (pre ++ mid)) =
        rw regroup' (index-append (pre ++ mid) h et (b'\n' ∷ post) m.end_once absent) in
      rw regroup (rw (first, second) (cut_section-append pre mid (h ∷ et) post))

  -- A text without the markers stays as it is.
  pub remove_section-Absent :
      (text : Bytes)
      → Absent text (h ∷ bt)
      → Absent text (h ∷ et)
      → remove_section (h ∷ bt) (h ∷ et) text ≡ ok text
  unfolding remove_section
  remove_section-Absent text a b = rw (a, b) refl
