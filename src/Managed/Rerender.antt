-- ===== src/Managed/Rerender.antt =====
-- Rendering a managed file again: the new section takes the place of the old one.
use lan_nickname.Base.{
  ℕ, Bool, true, false, [], ◌∷◌, ◌++◌, ok, ◌≡◌, ◌≢◌, refl, sym, ◌∙◌, inl, inr, ◌⊎◌, if◌then◌else◌,
  Bytes, append_assoc, append-nil, All-append, ◌>>=◌,
}
use lan_nickname.Text.Search.{
  contains, Absent, Free, Absent-append_stop, Absent-Free, Absent-append_left, Absent-append_right,
  Absent-nil,
}
use lan_nickname.Text.Replace.{
  lf, crlf, to_lf, to_crlf, to_lf-to_crlf, to_lf-Absent, contains-to_crlf, Absent-contains,
}
use lan_nickname.Text.Trim.{trim, trim_idem, trim-cons_cut, trim-append_cut, trim-All, trim_infix}
use lan_nickname.Managed.Section.{IsMarkers, remove_section-append, remove_section-Absent}
use lan_nickname.Managed.{
  remove_section, arrange, place, section_block, blank_line, is_newline, render_managed,
}

trim-blank_line : (u : Bytes) → trim is_newline ((u ++ blank_line) ++ []) ≡ trim is_newline u
trim-blank_line u =
    let split : (u ++ blank_line) ++ [] ≡ (u ++ b'\n' ∷ []) ++ b'\n' ∷ [] =
      simp (append_assoc, append-nil) in
    rw split (
      trim-append_cut is_newline (u ++ b'\n' ∷ []) b'\n' refl
      ∙ trim-append_cut is_newline u b'\n' refl)

-- A pattern without line ends does not come about over an empty line.
pub Absent-blank_line :
    (u : Bytes) (h : ℕ) (t rest : Bytes)
    → Free b'\n' (h ∷ t)
    → Absent u (h ∷ t)
    → Absent rest (h ∷ t)
    → Absent (u ++ b'\n' ∷ (b'\n' ∷ rest)) (h ∷ t)
Absent-blank_line u h t rest f a b =
    Absent-append_stop u b'\n' _ (h ∷ t) f a
      (Absent-append_stop [] b'\n' rest (h ∷ t) f (Absent-nil h t) b)

-- The text that is not managed, which `remove_section` leaves of a file, and what is asked of it: it
-- holds no marker, and no carriage return if the file's lines do not end in one.
pub record IsUnmanaged (begin end current u : Bytes) : Type 0 where
  pub left : remove_section begin end (to_lf current) ≡ ok u
  pub no_begin : Absent u begin
  pub no_end : Absent u end
  pub line_ends : (contains current crlf ≡ true) ⊎ Free b'\r' u

module _ {h : ℕ} {bt et : Bytes} (m : IsMarkers h bt et) where
  -- What is left of an arranged text without its section is, trimmed, the text that was arranged.
  pub arrange_removed :
      (body : Bytes) (prepend : Bool) (u : Bytes)
      → Absent u (h ∷ bt)
      → Absent u (h ∷ et)
      → Absent body (h ∷ et)
      → trim is_newline u ≡ u
      → (v : Bytes) × (remove_section (h ∷ bt) (h ∷ et) (arrange (h ∷ bt) (h ∷ et) body prepend u)
          ≡ ok v)
        × (trim is_newline v ≡ u)
  unfolding arrange
  arrange_removed [] prepend [] a b c t =
      ([], remove_section-Absent m [] (Absent-nil h bt) (Absent-nil h et), t)
  arrange_removed [] prepend (x ∷ u) a b c t = (
    (x ∷ u) ++ lf,
    remove_section-Absent m ((x ∷ u) ++ lf)
        (Absent-append_stop (x ∷ u) b'\n' [] (h ∷ bt) m.begin_line a (Absent-nil h bt))
        (Absent-append_stop (x ∷ u) b'\n' [] (h ∷ et) m.end_line b (Absent-nil h et)),
    trim-append_cut is_newline (x ∷ u) b'\n' refl ∙ t,
  )
  arrange_removed (y ∷ body) prepend [] a b c t = (
    [],
    simp append_assoc (remove_section-append m [] (y ∷ body) [] (Absent-nil h bt) m.apart c),
    t,
  )
  arrange_removed (y ∷ body) true (x ∷ u) a b c t = (
    b'\n' ∷ ((x ∷ u) ++ lf),
    simp append_assoc (
        remove_section-append m [] (y ∷ body) (b'\n' ∷ ((x ∷ u) ++ lf)) (Absent-nil h bt) m.apart
          c),
    trim-cons_cut is_newline b'\n' ((x ∷ u) ++ lf) refl
        ∙ trim-append_cut is_newline (x ∷ u) b'\n' refl
        ∙ t,
  )
  arrange_removed (y ∷ body) false (x ∷ u) a b c t = (
    ((x ∷ u) ++ blank_line) ++ [],
    simp (append_assoc, append-nil)
        (simp (append_assoc, append-nil) at
          (remove_section-append m ((x ∷ u) ++ blank_line) (y ∷ body) []
            (Absent-blank_line (x ∷ u) h bt [] m.begin_line a (Absent-nil h bt))
            (rw append_assoc (Absent-blank_line (x ∷ u) h et (h ∷ bt) m.end_line b m.apart)) c)),
    trim-blank_line (x ∷ u) ∙ t,
  )

  pub line-Free : Free b'\r' lf
  line-Free = ((λ e. cc), tt)

  pub block-Free :
      (body : Bytes) → Free b'\r' body → Free b'\r' (section_block (h ∷ bt) (h ∷ et) body)
  block-Free body f = (
    m.begin_cr.0,
    All-append (λ c. c ≢ b'\r') bt (b'\n' ∷ (body ++ h ∷ et)) m.begin_cr.1
        ((λ e. cc), All-append (λ c. c ≢ b'\r') body (h ∷ et) f m.end_cr),
  )

  -- Arranging adds no carriage return.
  arrange-Free :
      (body : Bytes) (prepend : Bool) (u : Bytes)
      → Free b'\r' body
      → Free b'\r' u
      → Free b'\r' (arrange (h ∷ bt) (h ∷ et) body prepend u)
  unfolding arrange
  arrange-Free [] prepend [] f g = tt
  arrange-Free [] prepend (x ∷ u) f g = All-append _ (x ∷ u) lf g line-Free
  arrange-Free (y ∷ body) prepend [] f g =
      All-append _ (section_block (h ∷ bt) (h ∷ et) (y ∷ body)) lf (block-Free (y ∷ body) f)
        line-Free
  arrange-Free (y ∷ body) true (x ∷ u) f g =
      let block = section_block (h ∷ bt) (h ∷ et) (y ∷ body) in
      All-append _ (block ++ (blank_line ++ (x ∷ u))) lf
        (All-append _ block (blank_line ++ (x ∷ u)) (block-Free (y ∷ body) f)
          (line-Free.0, (line-Free.0, g)))
        line-Free
  arrange-Free (y ∷ body) false (x ∷ u) f g =
      let block = section_block (h ∷ bt) (h ∷ et) (y ∷ body) in
      All-append _ ((x ∷ u) ++ (blank_line ++ block)) lf
        (All-append _ (x ∷ u) (blank_line ++ block) g
          (line-Free.0, (line-Free.0, block-Free (y ∷ body) f)))
        line-Free

  arrange_line :
      (y : ℕ) (body : Bytes) (prepend : Bool) (u : Bytes)
      → (t : Bytes) × (arrange (h ∷ bt) (h ∷ et) (y ∷ body) prepend u ≡ t ++ lf)
  unfolding arrange
  arrange_line y body prepend [] =
      (place (section_block (h ∷ bt) (h ∷ et) (y ∷ body)) prepend [], refl)
  arrange_line y body true (x ∷ u) =
      (place (section_block (h ∷ bt) (h ∷ et) (y ∷ body)) true (x ∷ u), refl)
  arrange_line y body false (x ∷ u) =
      (place (section_block (h ∷ bt) (h ∷ et) (y ∷ body)) false (x ∷ u), refl)

  abbrev pub written : Bool → Bytes → Bytes
  written crlf_file text = if crlf_file then to_crlf text else text

  -- The line ends of the output are those of the file.
  pub written_lines :
      (text : Bytes) (crlf_file : Bool)
      → ((t : Bytes) × (text ≡ t ++ lf))
      → ((crlf_file ≡ true) ⊎ Free b'\r' text)
      → let out = if crlf_file then to_crlf text else text in
        (to_lf out ≡ text) × (contains out crlf ≡ crlf_file)
  written_lines text true (t, e) f = (to_lf-to_crlf text, rw e (contains-to_crlf t))
  written_lines text false e (inl f) = cc
  written_lines text false e (inr f) =
      let a : Absent text crlf = Absent-Free text b'\r' lf f in
      (to_lf-Absent text a, Absent-contains text crlf a)

  trim-Absent : (u t : Bytes) → Absent u (h ∷ t) → Absent (trim is_newline u) (h ∷ t)
  trim-Absent u t f =
      let (a, b, e) = trim_infix is_newline u in
      Absent-append_left (trim is_newline u) b (h ∷ t) (λ p. cc)
        (Absent-append_right a (trim is_newline u ++ b) (h ∷ t) (rw e at f))

  render_managed-ok :
      (current : Bytes) {rest : Bytes} (body : Bytes) (q : Bool)
      → remove_section (h ∷ bt) (h ∷ et) (to_lf current) ≡ ok rest
      → render_managed current (h ∷ bt) (h ∷ et) body q
        ≡ ok (
            written
              (contains current crlf)
              (arrange (h ∷ bt) (h ∷ et) body q (trim is_newline rest)))
  unfolding render_managed
  render_managed-ok current body q e = rw (e, ◌>>=◌) refl

  -- The output of one rendering, and any rendering of it.
  pub rerender :
      {current u : Bytes} (y : ℕ) (body₁ : Bytes) (p : Bool)
      → IsUnmanaged (h ∷ bt) (h ∷ et) current u
      → Absent (y ∷ body₁) (h ∷ et)
      → Free b'\r' (y ∷ body₁)
      → (out : Bytes) × (render_managed current (h ∷ bt) (h ∷ et) (y ∷ body₁) p ≡ ok out)
        × ((body₂ : Bytes) (q : Bool)
            → render_managed out (h ∷ bt) (h ∷ et) body₂ q
              ≡ render_managed current (h ∷ bt) (h ∷ et) body₂ q)
  rerender {current} {u} y body₁ p un a f =
      let kept = trim is_newline u in
      let text = arrange (h ∷ bt) (h ∷ et) (y ∷ body₁) p kept in
      let (v, taken, same) =
        arrange_removed (y ∷ body₁) p kept (trim-Absent u bt un.no_begin)
          (trim-Absent u et un.no_end) a (trim_idem is_newline u) in
      let (there, ends) =
        written_lines text (contains current crlf) (arrange_line y body₁ p kept)
          (text-lines un.line_ends) in
      let out = written (contains current crlf) text in
      let left : remove_section (h ∷ bt) (h ∷ et) (to_lf out) ≡ ok v = rw there taken in
      (
        out,
        render_managed-ok current (y ∷ body₁) p un.left,
        λ body₂ q.
            render_managed-ok out body₂ q left
            ∙ rw (ends, same) (sym (render_managed-ok current body₂ q un.left)),
      )
    where
      text-lines :
          (contains current crlf ≡ true) ⊎ Free b'\r' u
          → (contains current crlf ≡ true)
            ⊎ Free b'\r' (arrange (h ∷ bt) (h ∷ et) (y ∷ body₁) p (trim is_newline u))
      text-lines (inl e) = inl e
      text-lines (inr g) =
          inr (arrange-Free (y ∷ body₁) p _ f (trim-All is_newline (λ c. c ≢ b'\r') u g))

  -- Writing a section succeeds, and writing another one behind it gives what writing the second alone
  -- gives. The premises: a section of the file is complete, its other text shows no marker, and holds no
  -- carriage return unless the file has one before a newline; the first body is not empty and holds no end
  -- marker and no carriage return; and the markers are as `IsMarkers` says. The second body is any.
  pub render_managed_again :
      {current u : Bytes} (y : ℕ) (body₁ body₂ : Bytes) (p q : Bool)
      → IsUnmanaged (h ∷ bt) (h ∷ et) current u
      → Absent (y ∷ body₁) (h ∷ et)
      → Free b'\r' (y ∷ body₁)
      → (out : Bytes) × (render_managed current (h ∷ bt) (h ∷ et) (y ∷ body₁) p ≡ ok out)
        × (render_managed out (h ∷ bt) (h ∷ et) body₂ q
            ≡ render_managed current (h ∷ bt) (h ∷ et) body₂ q)
  render_managed_again y body₁ body₂ p q un a f =
      let (out, first, again) = rerender y body₁ p un a f in (out, first, again body₂ q)
