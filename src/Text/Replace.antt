-- ===== src/Text/Replace.antt =====
-- `strings.ReplaceAll(s, old, new)` for a pattern that is not empty, and line endings.
use lan_nickname.Base.{
  ℕ, zero, suc, ◌-◌, true, false, [], ◌∷◌, ◌++◌, ◌≡◌, refl, arith, ◌==◌, if◌then◌else◌, Bytes,
  length, codes,
}
use lan_nickname.Text.Search.{starts_with, index, contains, Absent}

-- The count is of the bytes of a replaced occurrence that are still to be passed over.
replace_from : ℕ → Bytes → Bytes → Bytes → Bytes
unfolding starts_with
replace_from skip old new [] = []
replace_from (suc skip) old new (c ∷ s) = replace_from skip old new s
replace_from zero old new (c ∷ s) =
    let hit = starts_with (c ∷ s) old in
    let rest = replace_from (if hit then length old - 1 else 0) old new s in
    if hit then new ++ rest else c ∷ rest

unfoldable pub replace_all : Bytes → Bytes → Bytes → Bytes
unfolding replace_from
replace_all s old new = replace_from 0 old new s

abbrev pub lf : Bytes
lf = codes "\n"

abbrev pub crlf : Bytes
crlf = codes "\r\n"

unfoldable pub to_lf : Bytes → Bytes
unfolding replace_all
to_lf s = replace_all s crlf lf

unfoldable pub to_crlf : Bytes → Bytes
unfolding replace_all
to_crlf s = replace_all s lf crlf

-- With no occurrence nothing changes.
replace_all-Absent : (s old new : Bytes) → Absent s old → replace_all s old new ≡ s
unfolding replace_all index
replace_all-Absent [] old new a = refl
replace_all-Absent (c ∷ s) old new a = ground (arith, replace_all-Absent s old new)

pub to_lf-Absent : (s : Bytes) → Absent s crlf → to_lf s ≡ s
unfolding to_lf
to_lf-Absent s a = ground (arith, replace_all-Absent s crlf lf a)

to_crlf-cons :
    (c : ℕ) (s : Bytes)
    → to_crlf (c ∷ s) ≡ (if c == b'\n' then b'\r' ∷ b'\n' ∷ to_crlf s else c ∷ to_crlf s)
unfolding to_crlf
to_crlf-cons c s = ground arith

-- Converting line endings there and back.
pub to_lf-to_crlf : (s : Bytes) → to_lf (to_crlf s) ≡ s
unfolding to_lf to_crlf
to_lf-to_crlf [] = refl
to_lf-to_crlf (c ∷ []) = ground arith
to_lf-to_crlf (c ∷ d ∷ s) = ground (arith, to_lf-to_crlf (d ∷ s))

-- The converted text is recognised as one with such line endings.
pub contains-to_crlf : (s : Bytes) → contains (to_crlf (s ++ lf)) crlf ≡ true
unfolding to_crlf contains
contains-to_crlf [] = refl
contains-to_crlf (c ∷ s) = ground (arith, contains-to_crlf s)

pub contains-Absent : (s pat : Bytes) → contains s pat ≡ false → Absent s pat
unfolding contains
contains-Absent s pat h = ground arith

pub Absent-contains : (s pat : Bytes) → Absent s pat → contains s pat ≡ false
unfolding contains
Absent-contains s pat h = ground arith
