-- ===== src/Files.antt =====
-- What the program's packages do with files through the package `os`: a monad over the files, the answers
-- that the system will give, and the calls that were made. A call that fails changes nothing, but for a
-- write, which may leave a part of its text. A rename is atomic.
pub mod Quiet
pub mod Replace
pub mod Bind
pub mod Lines
pub mod Spares
use lan_nickname.Base.{
  ℕ, Bool, true, false, List, [], ◌∷◌, Option, none, some, Result, ok, err, Bytes,
}
use lan_nickname.Base.Dict.{Dict, lookup, insert, erase}

-- What the system answers to one call. The bytes are what a failed write leaves in the file.
pub data Answer : Type 0 where
  works : Answer
  fails : Option Bytes → Answer

pub data Call : Type 0 where
  reading writing removing : Bytes → Call
  renaming : Bytes → Bytes → Call
  asking : Bytes → Call
  sending : Bytes → Bytes → Call
  running : List Bytes → Call

-- The calls are listed with the latest first. Where no answer is left, calls succeed.
pub record World : Type 0 where
  pub files : Dict Bytes
  pub answers : List Answer
  pub calls : List Call

-- What `os.ReadFile` gives.
pub data Read : Type 0 where
  contents : Bytes → Read
  missing failed : Read

-- The text that is read of a missing file is empty.
abbrev pub text_of : Read → Bytes
text_of (contents s) = s
text_of missing = []
text_of failed = []

abbrev pub Io : Type 0 → Type 0 → Type 0
Io E A = World → Result E A × World

module _ {E A : Type 0} where
  abbrev pub pure : A → Io E A
  pure a w = (ok a, w)

  abbrev pub raise : E → Io E A
  raise e w = (err e, w)

  abbrev pub from_result : Result E A → Io E A
  from_result r w = (r, w)

abbrev pub after : {E A B : Type 0} → Result E A × World → (A → Io E B) → Result E B × World
after (ok a, w) next = next a w
after (err e, w) next = (err e, w)

infixl 5 ◌>>=◌ ◌>>◌
abbrev pub ◌>>=◌ : {E A B : Type 0} → Io E A → (A → Io E B) → Io E B
◌>>=◌ first next w = after (first w) next

abbrev pub ◌>>◌ : {E B : Type 0} → Io E (Unit {0}) → Io E B → Io E B
first >> second = first >>= λ _. second

-- The error of a callee as one of the caller.
abbrev pub relabel : {E F A : Type 0} → (E → F) → Result E A × World → Result F A × World
relabel f (ok a, w) = (ok a, w)
relabel f (err e, w) = (err (f e), w)

abbrev pub wrap : {E F A : Type 0} → (E → F) → Io E A → Io F A
wrap f m w = relabel f (m w)

-- `_ = f()`
abbrev pub ended : {E F A : Type 0} → Result E A × World → Result F (Unit {0}) × World
ended (_, w) = (ok tt, w)

abbrev pub ignore : {E F A : Type 0} → Io E A → Io F (Unit {0})
ignore m w = ended (m w)

-- `if err := f(); err != nil { cleanup; return err }`
abbrev pub cleaned : {E A : Type 0} → Result E A × World → Io E (Unit {0}) → Result E A × World
cleaned (ok a, w) cleanup = (ok a, w)
cleaned (err e, w) cleanup = (err e, (cleanup w).1)

abbrev pub or_else : {E A : Type 0} → Io E A → Io E (Unit {0}) → Io E A
or_else m cleanup w = cleaned (m w) cleanup

abbrev pub first_answer : List Answer → Answer
first_answer [] = works
first_answer (a ∷ _) = a

abbrev pub later_answers : List Answer → List Answer
later_answers [] = []
later_answers (_ ∷ rest) = rest

-- The world behind a call.
abbrev pub noted : Call → World → World
noted c w = record w { answers = later_answers w.answers; calls = c ∷ w.calls }

abbrev pub found : Option Bytes → Read
found none = missing
found (some s) = contents s

-- A call that changes no file, with the error that is returned if it fails.
module _ {E : Type 0} where
  abbrev pub answered : E → Answer → World → Result E (Unit {0}) × World
  answered e works w = (ok tt, w)
  answered e (fails _) w = (err e, w)

  unfoldable pub call : Call → E → Io E (Unit {0})
  call c e w = answered e (first_answer w.answers) (noted c w)

  abbrev pub written : Bytes → Bytes → E → Answer → World → Result E (Unit {0}) × World
  written path s e works w = (ok tt, record w { files = insert path s w.files })
  written path s e (fails none) w = (err e, w)
  written path s e (fails (some part)) w = (err e, record w { files = insert path part w.files })

  unfoldable pub write_file : Bytes → Bytes → E → Io E (Unit {0})
  unfolding insert
  write_file path s e w = written path s e (first_answer w.answers) (noted (writing path) w)

  abbrev pub moved : Bytes → Bytes → E → Option Bytes → World → Result E (Unit {0}) × World
  moved from to e none w = (err e, w)
  moved from to e (some s) w = (ok tt, record w { files = insert to s (erase from w.files) })

  abbrev pub renamed : Bytes → Bytes → E → Answer → World → Result E (Unit {0}) × World
  renamed from to e works w = moved from to e (lookup from w.files) w
  renamed from to e (fails _) w = (err e, w)

  unfoldable pub rename : Bytes → Bytes → E → Io E (Unit {0})
  unfolding lookup insert erase
  rename from to e w = renamed from to e (first_answer w.answers) (noted (renaming from to) w)

  -- `err != nil && !errors.Is(err, os.ErrNotExist)`: a file that is not there is no failure.
  abbrev pub removed : Bytes → E → Answer → World → Result E (Unit {0}) × World
  removed path e works w = (ok tt, record w { files = erase path w.files })
  removed path e (fails _) w = (err e, w)

  unfoldable pub remove_file : Bytes → E → Io E (Unit {0})
  unfolding erase
  remove_file path e w = removed path e (first_answer w.answers) (noted (removing path) w)

  abbrev pub read_as : Bytes → Answer → World → Result E Read × World
  read_as path works w = (ok (found (lookup path w.files)), w)
  read_as path (fails _) w = (ok failed, w)

  unfoldable pub read_file : Bytes → Io E Read
  unfolding lookup
  read_file path w = read_as path (first_answer w.answers) (noted (reading path) w)
