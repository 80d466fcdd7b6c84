-- ===== src/Files/Bind.antt =====
-- What the success of a sequence of calls says of its parts.
use lan_nickname.Base.{Result, ok, err, ◌≡◌, refl}
use lan_nickname.Files.{World, Io, ◌>>=◌, after}

module _ {E A B : Type 0} where
  after-eq-ok :
      (r : Result E A × World) (next : A → Io E B) {b : B}
      → (after r next).0 ≡ ok b
      → (a : A) × (r.0 ≡ ok a) × (after r next ≡ next a r.1)
  after-eq-ok (ok a, w) next h = (a, refl, refl)
  after-eq-ok (err e, w) next h = cc

  pub >>=-eq-ok :
      (m : Io E A) (next : A → Io E B) (w : World) {b : B}
      → ((m >>= next) w).0 ≡ ok b
      → (a : A) × ((m w).0 ≡ ok a) × ((m >>= next) w ≡ next a (m w).1)
  >>=-eq-ok m next w h = after-eq-ok (m w) next h
