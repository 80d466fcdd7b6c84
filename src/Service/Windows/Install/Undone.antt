-- ===== src/Service/Windows/Install/Undone.antt =====
-- What a failed `Install` under Windows takes back.
use lan_nickname.Base.{
  [], ◌∷◌, ◌++◌, List, ◌≡◌, refl, sym, ap, ◌∙◌, subst, Result, ok, err, Bytes, ◌⊎◌, inl, inr,
}
use lan_nickname.Files.{
  Answer, works, fails, Call, World, call, noted, answered, first_answer, Io, after, ◌>>◌, or_else,
}
use lan_nickname.Service.Windows.Install.{
  attempt, Error, create_failed, source_failed, firewall_failed, start_failed, remove_failed,
  create_service, delete_service, start_service, register_source, remove_source, add_rule,
  delete_rule, configure_firewall, register,
}

-- The call a was made, and behind it the call b; the latest stands first.
abbrev pub IsUndone : Call → Call → List Call → Type 0
IsUndone a b calls =
    (later : List Call) × (between : List Call) × (earlier : List Call) × (calls
      ≡ later ++ (b ∷ (between ++ (a ∷ earlier))))

-- By the error that is returned.
abbrev pub TakenBack : Bytes → Result Error (Unit {0}) × World → Type 0
TakenBack path (err source_failed, w) = IsUndone create_service delete_service w.calls
TakenBack path (err firewall_failed, w) =
    IsUndone create_service delete_service w.calls × IsUndone register_source remove_source w.calls
TakenBack path (err start_failed, w) =
    IsUndone create_service delete_service w.calls
    × IsUndone register_source remove_source w.calls
    × IsUndone (add_rule path) delete_rule w.calls
TakenBack path (err create_failed, w) = Unit
TakenBack path (ok _, w) = (earlier : List Call) × (w.calls ≡ start_service ∷ earlier)
TakenBack path (err _, w) = ⊥

call-cases :
    {E : Type 0} (c : Call) (e : E) (w : World)
    → (call c e w ≡ (ok tt, noted c w)) ⊎ (call c e w ≡ (err e, noted c w))
unfolding call
call-cases c e w = by_answer (first_answer w.answers)
  where
    by_answer :
        (a : Answer)
        → (answered e a (noted c w) ≡ (ok tt, noted c w))
          ⊎ (answered e a (noted c w) ≡ (err e, noted c w))
    by_answer works = inl refl
    by_answer (fails part) = inr refl

attempt-eq : (c : Call) (w : World) → attempt c w ≡ (ok tt, noted c w)
attempt-eq c w = elim (call-cases c remove_failed w) [ inl e ↦ rw e refl | inr e ↦ rw e refl ]

then-eq :
    (m n : Io Error (Unit {0})) (w v : World) {r : Result Error (Unit {0}) × World}
    → m w ≡ (ok tt, v)
    → n v ≡ r
    → (m >> n) w ≡ r
then-eq m n w v e f = ap (λ q. after q (λ _. n)) e ∙ f

module _ (path : Bytes) where
  abbrev sourced : World → World
  sourced w = noted register_source (noted create_service w)

  abbrev ruled : World → World
  ruled w = noted (add_rule path) (noted delete_rule (sourced w))

  configured-cases :
      (w : World)
      → (configure_firewall path w ≡ (ok tt, noted (add_rule path) (noted delete_rule w)))
        ⊎ (configure_firewall path w
            ≡ (err firewall_failed, noted (add_rule path) (noted delete_rule w)))
  unfolding configure_firewall
  configured-cases w = elim (call-cases (add_rule path) firewall_failed (noted delete_rule w)) [
    | inl e ↦ inl (on (ok tt) e)
    | inr e ↦ inr (on (err firewall_failed) e)
  ]
    where
      on :
          (r : Result Error (Unit {0}))
          → call (add_rule path) firewall_failed (noted delete_rule w)
            ≡ (r, noted (add_rule path) (noted delete_rule w))
          → configure_firewall path w ≡ (r, noted (add_rule path) (noted delete_rule w))
      on r =
          then-eq (attempt delete_rule) (call (add_rule path) firewall_failed) w
            (noted delete_rule w) (attempt-eq delete_rule w)

  start-TakenBack :
      (w : World)
      → TakenBack path (
          or_else
            (call start_service start_failed)
            (attempt remove_source >> attempt delete_rule >> attempt delete_service)
            (ruled w))
  start-TakenBack w = elim (call-cases start_service start_failed (ruled w)) [
    | inl e ↦ rw e ((ruled w).calls, refl)
    | inr e ↦
        let v = noted start_service (ruled w) in
        let back =
          then-eq (attempt remove_source >> attempt delete_rule) (attempt delete_service) v
            (noted delete_rule (noted remove_source v))
            (then-eq (attempt remove_source) (attempt delete_rule) v (noted remove_source v)
              (attempt-eq remove_source v) (attempt-eq delete_rule (noted remove_source v)))
            (attempt-eq delete_service (noted delete_rule (noted remove_source v))) in
        rw e (
          subst (λ (q : Result Error (Unit {0}) × World). TakenBack path (err start_failed, q.1))
            (sym back)
            (
              (
                [],
                delete_rule
                    ∷ remove_source
                    ∷ start_service
                    ∷ add_rule path
                    ∷ delete_rule
                    ∷ register_source
                    ∷ [],
                w.calls,
                refl,
              ),
              (
                delete_service ∷ delete_rule ∷ [],
                start_service ∷ add_rule path ∷ delete_rule ∷ [],
                create_service ∷ w.calls,
                refl,
              ),
              (
                delete_service ∷ [],
                remove_source ∷ start_service ∷ [],
                delete_rule ∷ register_source ∷ create_service ∷ w.calls,
                refl,
              ),
            ))
  ]

  firewall-TakenBack :
      (w : World)
      → TakenBack path (
          (or_else (configure_firewall path) (attempt remove_source >> attempt delete_service)
              >> or_else
                  (call start_service start_failed)
                  (attempt remove_source >> attempt delete_rule >> attempt delete_service))
            (sourced w))
  firewall-TakenBack w = elim (configured-cases (sourced w)) [
    | inl e ↦ rw e (start-TakenBack w)
    | inr e ↦
        let v = ruled w in
        let back =
          then-eq (attempt remove_source) (attempt delete_service) v (noted remove_source v)
            (attempt-eq remove_source v) (attempt-eq delete_service (noted remove_source v)) in
        rw e (
          subst (λ (q : Result Error (Unit {0}) × World). TakenBack path (err firewall_failed, q.1))
            (sym back)
            (
              (
                [],
                remove_source ∷ add_rule path ∷ delete_rule ∷ register_source ∷ [],
                w.calls,
                refl,
              ),
              (
                delete_service ∷ [],
                add_rule path ∷ delete_rule ∷ [],
                create_service ∷ w.calls,
                refl,
              ),
            ))
  ]

  source-TakenBack :
      (w : World)
      → TakenBack path (
          (or_else (call register_source source_failed) (attempt delete_service)
              >> (or_else
                    (configure_firewall path)
                    (attempt remove_source >> attempt delete_service)
                  >> or_else
                      (call start_service start_failed)
                      (attempt remove_source >> attempt delete_rule >> attempt delete_service)))
            (noted create_service w))
  source-TakenBack w = elim (call-cases register_source source_failed (noted create_service w)) [
    | inl e ↦ rw e (firewall-TakenBack w)
    | inr e ↦ rw e (
        subst (λ (q : Result Error (Unit {0}) × World). TakenBack path (err source_failed, q.1))
          (sym (attempt-eq delete_service (sourced w))) ([], register_source ∷ [], w.calls, refl))
  ]

  -- However the system answers: where `Install` fails behind the copying, each step in front of the failed
  -- one was followed by the call that takes it back.
  pub register-TakenBack : (w : World) → TakenBack path (register path w)
  unfolding register
  register-TakenBack w = elim (call-cases create_service create_failed w) [
    | inr e ↦ rw e tt
    | inl e ↦ rw e (source-TakenBack w)
  ]
