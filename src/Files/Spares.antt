-- ===== src/Files/Spares.antt =====
-- The parts of a program that leave a file alone.
use lan_nickname.Base.{Result, ok, err, Bytes, ◌≡◌, ◌≢◌, ◌∙◌, ap}
use lan_nickname.Base.Dict.{Dict, lookup}
use lan_nickname.Files.Quiet.{IsQuiet}
use lan_nickname.Files.Replace.{Updates, Updates-others}
use lan_nickname.Files.{World, Io, ◌>>=◌, after, wrap, relabel}

pub record Spares {E A : Type 0} (j : Bytes) (m : Io E A) : Type 0 where
  pub kept : (w : World) → lookup j (m w).1.files ≡ lookup j w.files

module _ {E A : Type 0} (j : Bytes) (m : Io E A) where
  pub quiet-Spares : IsQuiet m → Spares j m
  quiet-Spares q = record { kept = λ w. ap (λ (d : Dict Bytes). lookup j d) (q.unchanged w) }

  pub Updates-Spares :
      (t path : Bytes) (P : World → Bytes → Type 0)
      → ((w : World) → Updates t path (P w) w.files (m w))
      → j ≢ path
      → j ≢ t
      → Spares j m
  Updates-Spares t path P h np nt = record {
    kept = λ w. Updates-others t path (P w) w.files (m w) j (h w) np nt;
  }

  pub >>=-Spares :
      {B : Type 0} (next : A → Io E B)
      → Spares j m
      → ((a : A) → Spares j (next a))
      → Spares j (m >>= next)
  >>=-Spares next s each = record { kept = λ w. behind w (m w) (s.kept w) }
    where
      behind :
          (w : World) (r : Result E A × World)
          → lookup j r.1.files ≡ lookup j w.files
          → lookup j (after r next).1.files ≡ lookup j w.files
      behind w (ok a, w') e = (each a).kept w' ∙ e
      behind w (err f, w') e = e

  pub wrap-Spares : {F : Type 0} (f : E → F) → Spares j m → Spares j (wrap f m)
  wrap-Spares {F} f s = record { kept = λ w. relabelled w (m w) (s.kept w) }
    where
      relabelled :
          (w : World) (r : Result E A × World)
          → lookup j r.1.files ≡ lookup j w.files
          → lookup j (relabel f r).1.files ≡ lookup j w.files
      relabelled w (ok a, w') e = e
      relabelled w (err g, w') e = e
