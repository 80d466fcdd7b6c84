-- ===== src/Files/Lines.antt =====
-- Files of one line at least.
use lan_nickname.Base.{
  [], ◌∷◌, ◌++◌, ◌≡◌, refl, ap, Option, none, some, Bytes, codes, false, is_empty, arith,
}
use lan_nickname.Base.Dict.{Dict, lookup}
use lan_nickname.Files.{found, text_of}
use lan_nickname.Files.Replace.{text_in}

line_nonempty : (s : Bytes) → is_empty (s ++ codes "\n") ≡ false
line_nonempty [] = refl
line_nonempty (c ∷ s) = refl

-- Such a file is there.
pub line_there :
    (path : Bytes) (files : Dict Bytes) (s : Bytes)
    → text_in path files ≡ s ++ codes "\n"
    → lookup path files ≡ some (s ++ codes "\n")
line_there path files s e = of_found (lookup path files) e
  where
    nonempty : is_empty (s ++ codes "\n") ≡ false
    nonempty = line_nonempty s

    of_found : (o : Option Bytes) → text_of (found o) ≡ s ++ codes "\n" → o ≡ some (s ++ codes "\n")
    of_found none q = ground (arith, q, nonempty)
    of_found (some x) q = ap some q
