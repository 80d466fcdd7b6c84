-- ===== src/Files/Quiet.antt =====
-- The parts of a program that touch no file, and what reading one gives.
use lan_nickname.Base.{
  Bool, true, false, Result, ok, err, Bytes, ◌≡◌, refl, ◌∙◌, inl, inr, if◌then◌else◌, ◌⊎◌,
}
use lan_nickname.Base.Dict.{Dict, lookup}
use lan_nickname.Files.{
  Answer, works, fails, Call, World, Io, pure, raise, from_result, wrap, relabel, ◌>>=◌, after,
  ignore, first_answer, noted, call, answered, reading, found, Read, failed, read_file, read_as,
}

-- A part that touches no file.
pub record IsQuiet {E A : Type 0} (m : Io E A) : Type 0 where
  pub unchanged : (w : World) → (m w).1.files ≡ w.files

module _ {E A : Type 0} where
  pub pure-IsQuiet : (a : A) → IsQuiet {E = E} (pure a)
  pure-IsQuiet a = record { unchanged = λ w. refl }

  pub raise-IsQuiet : (e : E) → IsQuiet {A = A} (raise e)
  raise-IsQuiet e = record { unchanged = λ w. refl }

  pub from_result-IsQuiet : (r : Result E A) → IsQuiet (from_result r)
  from_result-IsQuiet r = record { unchanged = λ w. refl }

  pub if-IsQuiet : (b : Bool) (m n : Io E A) → IsQuiet m → IsQuiet n → IsQuiet (if b then m else n)
  if-IsQuiet true m n hm hn = hm
  if-IsQuiet false m n hm hn = hn

  pub wrap-IsQuiet : {F : Type 0} (f : E → F) (m : Io E A) → IsQuiet m → IsQuiet (wrap f m)
  wrap-IsQuiet {F} f m h = record { unchanged = λ w. relabelled w (m w) (h.unchanged w) }
    where
      relabelled :
          (w : World) (r : Result E A × World)
          → r.1.files ≡ w.files
          → (relabel f r).1.files ≡ w.files
      relabelled w (ok a, w') e = e
      relabelled w (err g, w') e = e

pub call-IsQuiet : {E : Type 0} (c : Call) (e : E) → IsQuiet (call c e)
unfolding call
call-IsQuiet {E} c e = record { unchanged = λ w. answered_files w (first_answer w.answers) }
  where
    answered_files : (w : World) (a : Answer) → (answered e a (noted c w)).1.files ≡ w.files
    answered_files w works = refl
    answered_files w (fails part) = refl

pub read_file-IsQuiet : (E : Type 0) (path : Bytes) → IsQuiet (read_file {E = E} path)
unfolding read_file
read_file-IsQuiet E path = record { unchanged = λ w. read_files w (first_answer w.answers) }
  where
    read_files :
        (w : World) (a : Answer)
        → (read_as {E = E} path a (noted (reading path) w)).1.files ≡ w.files
    read_files w works = refl
    read_files w (fails part) = refl

-- What a reading gives is what is there, or a failure.
pub read_file-eq-ok :
    (E : Type 0) (path : Bytes) (w : World) (r : Read)
    → (read_file {E = E} path w).0 ≡ ok r
    → (r ≡ failed) ⊎ (r ≡ found (lookup path w.files))
unfolding read_file
read_file-eq-ok E path w r = read_back (first_answer w.answers)
  where
    read_back :
        (a : Answer)
        → (read_as {E = E} path a (noted (reading path) w)).0 ≡ ok r
        → (r ≡ failed) ⊎ (r ≡ found (lookup path w.files))
    read_back works e = inr cc
    read_back (fails part) e = inl cc

pub ignore-IsQuiet : {E F : Type 0} (m : Io E (Unit {0})) → IsQuiet m → IsQuiet {E = F} (ignore m)
ignore-IsQuiet m h = record { unchanged = λ w. h.unchanged w }

pub >>=-IsQuiet :
    {E A B : Type 0} (m : Io E A) (next : A → Io E B)
    → IsQuiet m
    → ((a : A) → IsQuiet (next a))
    → IsQuiet (m >>= next)
>>=-IsQuiet {E} {A} m next quiet each = record {
  unchanged = λ w. behind w (m w) (quiet.unchanged w);
}
  where
    behind :
        (w : World) (r : Result E A × World)
        → r.1.files ≡ w.files
        → (after r next).1.files ≡ w.files
    behind w (ok a, w') e = (each a).unchanged w' ∙ e
    behind w (err f, w') e = e

-- A quiet part in front of what has any property that its failure has too.
pub quiet_front :
    {E A B : Type 0} (Q : Result E B × World → Type 0) (old : Dict Bytes) (m : Io E A)
    (next : A → Io E B)
    → IsQuiet m
    → ((e : E) (w : World) → w.files ≡ old → Q (err e, w))
    → ((a : A) (w : World) → w.files ≡ old → Q (next a w))
    → (w : World) → w.files ≡ old
    → Q ((m >>= next) w)
quiet_front {E} {A} Q old m next quiet at_failure each w same =
    behind (m w) (quiet.unchanged w ∙ same)
  where
    behind : (r : Result E A × World) → r.1.files ≡ old → Q (after r next)
    behind (ok a, w') e = each a w' e
    behind (err f, w') e = at_failure f w' e
