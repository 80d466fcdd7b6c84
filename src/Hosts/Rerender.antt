-- ===== src/Hosts/Rerender.antt =====
-- Rendering the hosts file again.
use lan_nickname.Base.{
  true, [], ◌∷◌, ◌++◌, ok, ◌>>=◌, ◌≡◌, ◌≢◌, refl, sym, ◌∙◌, inl, inr, ◌⊎◌, arith, Bytes, All,
  All-append, codes, append_assoc, append-nil, if◌then◌else◌, is_empty,
}
use lan_nickname.Hosts.Clean.{IsClean, PrintsPlain, render_body-IsSafe}
use lan_nickname.Hosts.{Net, begin_marker, end_marker, arrange, render, render_body}
use lan_nickname.Managed.Rerender.{
  IsUnmanaged, Absent-blank_line, written, written_lines, line-Free, block-Free,
}
use lan_nickname.Managed.Section.{IsMarkers, remove_section-append}
use lan_nickname.Managed.{remove_section, section_block, blank_line, is_newline}
use lan_nickname.Store.{Snapshot}
use lan_nickname.Text.Replace.{lf, crlf, to_lf}
use lan_nickname.Text.Search.{contains, Absent, Free, index, Absent-nil, Absent-append_left}
use lan_nickname.Text.Trim.{
  trim_right, trim_right_idem, trim_right_prefix, trim_right-append_cut, trim_right-All,
}

-- The markers without their first byte.
abbrev begin_tail : Bytes
begin_tail = codes " BEGIN lan-nick (managed; do not edit)"

abbrev end_tail : Bytes
end_tail = codes " END lan-nick"

hosts-IsMarkers : IsMarkers b'#' begin_tail end_tail
unfolding index
hosts-IsMarkers = record {
  begin_once = omega arith;
  end_once = omega arith;
  begin_line = omega arith;
  end_line = omega arith;
  begin_cr = omega arith;
  end_cr = omega arith;
  apart = refl;
}

trim_right-blank_line :
    (u : Bytes) → trim_right is_newline ((u ++ blank_line) ++ []) ≡ trim_right is_newline u
trim_right-blank_line u =
    let split : (u ++ blank_line) ++ [] ≡ (u ++ b'\n' ∷ []) ++ b'\n' ∷ [] =
      simp (append_assoc, append-nil) in
    rw split (
      trim_right-append_cut is_newline (u ++ b'\n' ∷ []) b'\n' refl
      ∙ trim_right-append_cut is_newline u b'\n' refl)

-- What is left of an arranged text without its section is, cut, the text that was arranged.
arrange_removed :
    (body u : Bytes)
    → Absent u begin_marker
    → Absent u end_marker
    → Absent body end_marker
    → trim_right is_newline u ≡ u
    → (v : Bytes) × (remove_section begin_marker end_marker (arrange u body) ≡ ok v)
      × (trim_right is_newline v ≡ u)
unfolding arrange
arrange_removed body [] a b c t = (
  [],
  simp append_assoc (
      remove_section-append hosts-IsMarkers [] body [] (Absent-nil b'#' begin_tail)
        hosts-IsMarkers.apart c),
  t,
)
arrange_removed body (x ∷ u) a b c t = (
  ((x ∷ u) ++ blank_line) ++ [],
  simp (append_assoc, append-nil)
      (simp (append_assoc, append-nil) at
        (remove_section-append hosts-IsMarkers ((x ∷ u) ++ blank_line) body []
          (Absent-blank_line (x ∷ u) b'#' begin_tail [] hosts-IsMarkers.begin_line a
            (Absent-nil b'#' begin_tail))
          (rw append_assoc (
            Absent-blank_line (x ∷ u) b'#' end_tail begin_marker hosts-IsMarkers.end_line b
              hosts-IsMarkers.apart))
          c)),
  trim_right-blank_line (x ∷ u) ∙ t,
)

arrange_line : (u body : Bytes) → (t : Bytes) × (arrange u body ≡ t ++ lf)
unfolding arrange
arrange_line u body = (
  (if is_empty u then u else u ++ blank_line) ++ section_block begin_marker end_marker body,
  sym (append_assoc (if is_empty u then u else u ++ blank_line) _ lf),
)

arrange-Free : (u body : Bytes) → Free b'\r' u → Free b'\r' body → Free b'\r' (arrange u body)
unfolding arrange
arrange-Free [] body f g =
    All-append _ (section_block begin_marker end_marker body) lf (block-Free hosts-IsMarkers body g)
      (line-Free hosts-IsMarkers)
arrange-Free (x ∷ u) body f g =
    All-append _ ((x ∷ u) ++ blank_line) _ (All-append _ (x ∷ u) blank_line f (omega arith)) (
      All-append _ (section_block begin_marker end_marker body) lf
        (block-Free hosts-IsMarkers body g) (line-Free hosts-IsMarkers))

trim_right-Absent :
    (u : Bytes) (t : Bytes) → Absent u (b'#' ∷ t) → Absent (trim_right is_newline u) (b'#' ∷ t)
trim_right-Absent u t f =
    let (b, e) = trim_right_prefix is_newline u in
    Absent-append_left (trim_right is_newline u) b (b'#' ∷ t) (λ p. cc) (rw e at f)

module _ (N : Net) where
  render-ok :
      (current : Bytes) {rest : Bytes} (s : Snapshot)
      → remove_section begin_marker end_marker (to_lf current) ≡ ok rest
      → render N current s
        ≡ ok (
            written hosts-IsMarkers
              (contains current crlf)
              (arrange (trim_right is_newline rest) (render_body N s)))
  unfolding render
  render-ok current s e = rw (e, ◌>>=◌) refl

  -- The hosts file follows the latest snapshot: rendering one succeeds, and rendering another behind it
  -- gives what rendering the other alone gives. The premises: a section of the file is complete, its other
  -- text shows no marker, and holds no carriage return unless the file has one before a newline; printed
  -- addresses hold no `#` and no carriage return; and the peers of the first snapshot have host labels, and
  -- nicknames that hold no carriage return and, behind `# `, do not show the end marker.
  pub render_again :
      {current u : Bytes} (s₁ s₂ : Snapshot)
      → PrintsPlain N
      → IsUnmanaged begin_marker end_marker current u
      → All IsClean s₁.peers
      → (out : Bytes) × (render N current s₁ ≡ ok out) × (render N out s₂ ≡ render N current s₂)
  render_again {current} {u} s₁ s₂ printed un clean =
      let body = render_body N s₁ in
      let (absent, free) = render_body-IsSafe N printed s₁ clean in
      let kept = trim_right is_newline u in
      let text = arrange kept body in
      let (v, taken, same) =
        arrange_removed body kept (trim_right-Absent u begin_tail un.no_begin)
          (trim_right-Absent u end_tail un.no_end) absent (trim_right_idem is_newline u) in
      let (there, ends) =
        written_lines hosts-IsMarkers text (contains current crlf) (arrange_line kept body)
          (text-lines un.line_ends free) in
      let out = written hosts-IsMarkers (contains current crlf) text in
      let left : remove_section begin_marker end_marker (to_lf out) ≡ ok v = rw there taken in
      (
        out,
        render-ok current s₁ un.left,
        render-ok out s₂ left ∙ rw (ends, same) (sym (render-ok current s₂ un.left)),
      )
    where
      text-lines :
          (contains current crlf ≡ true) ⊎ Free b'\r' u
          → Free b'\r' (render_body N s₁)
          → (contains current crlf ≡ true)
            ⊎ Free b'\r' (arrange (trim_right is_newline u) (render_body N s₁))
      text-lines (inl e) f = inl e
      text-lines (inr g) f =
          inr (arrange-Free _ _ (trim_right-All is_newline (λ c. c ≢ b'\r') u g) f)
