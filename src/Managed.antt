-- ===== src/Managed.antt =====
-- The managed section of a system file: `renderManaged` of internal/sshconfig/sshconfig.go. Its first
-- half, which takes the old section out, is written a second time in `Render` of
-- internal/hosts/hosts.go, which uses `remove_section` here.
pub mod Section
pub mod Rerender
use lan_nickname.Base.{
  ℕ, ◌+◌, Bool, true, false, List, [], ◌∷◌, ◌++◌, Option, none, some, Result, ok, err, ◌>>=◌, ltb,
  ◌==◌, if◌then◌else◌, Bytes, length, get_elem?, take, drop, is_empty, codes,
}
use lan_nickname.Text.Search.{index, contains}
use lan_nickname.Text.Replace.{lf, crlf, to_lf, to_crlf}
use lan_nickname.Text.Trim.{trim}

pub data Error : Type 0 where
  incomplete_section : Error

abbrev pub is_newline : ℕ → Bool
is_newline c = c == b'\n'

-- `if end < len(text) && text[end] == '\n' { end++ }`
unfoldable pub skip_newline : Bytes → ℕ → ℕ
skip_newline text end = elim (get_elem? text end) [
  | none ↦ end
  | some c ↦ if is_newline c then end + 1 else end
]

-- The text without its section, from the positions of the two markers.
unfoldable pub cut_section : Bytes → ℕ → Option ℕ → Option ℕ → Result Error Bytes
unfolding skip_newline
cut_section text size none none = ok text
cut_section text size (some start) (some end) =
    if ltb end start
    then err incomplete_section
    else ok (take start text ++ drop (skip_newline text (end + size)) text)
cut_section text size none (some _) = err incomplete_section
cut_section text size (some _) none = err incomplete_section

unfoldable pub remove_section : Bytes → Bytes → Bytes → Result Error Bytes
unfolding cut_section index
remove_section begin end text = cut_section text (length end) (index text begin) (index text end)

abbrev pub blank_line : Bytes
blank_line = codes "\n\n"

abbrev pub section_block : Bytes → Bytes → Bytes → Bytes
section_block begin end body = begin ++ (b'\n' ∷ (body ++ end))

-- Where the block stands beside the text that is not managed.
unfoldable pub place : Bytes → Bool → Bytes → Bytes
place block prepend text =
    if is_empty text
    then block
    else if prepend
    then block ++ (blank_line ++ text)
    else text ++ (blank_line ++ block)

-- From the trimmed text to the new one, with `\n` line ends.
unfoldable pub arrange : Bytes → Bytes → Bytes → Bool → Bytes → Bytes
unfolding place
arrange begin end body prepend text =
    let placed =
      if is_empty body then text else place (section_block begin end body) prepend text in
    if is_empty placed then placed else placed ++ lf

unfoldable pub render_managed : Bytes → Bytes → Bytes → Bytes → Bool → Result Error Bytes
unfolding remove_section arrange contains to_lf to_crlf trim
render_managed current begin end body prepend = do
  rest ← remove_section begin end (to_lf current)
  let text = arrange begin end body prepend (trim is_newline rest)
  ok (if contains current crlf then to_crlf text else text)
