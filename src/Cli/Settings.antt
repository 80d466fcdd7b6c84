-- ===== src/Cli/Settings.antt =====
-- The commands that change the settings.
use lan_nickname.Base.{
  Bool, true, false, Option, Result, ok, err, ◌≡◌, refl, ◌++◌, sym, ap, ◌∙◌, Bytes, is_empty,
  refuse, codes, some,
}
use lan_nickname.Cli.Change.{
  Error, unsettled, empty_group, shown_name, shown_group, keep, rename, set_group,
}
use lan_nickname.Config.Load.Again.{IsKept, save-IsKept, kept-load}
use lan_nickname.Config.Load.{ConfigJson, LoadError, Place, load_or_create, save}
use lan_nickname.Config.State.{System}
use lan_nickname.Config.{Config, validate}
use lan_nickname.Files.{World, works, first_answer, Io, ◌>>◌, relabel, after, pure, from_result}
use lan_nickname.Text.Unicode.{trim_space, Unicode}
use lan_nickname.Base.{subst}

module _ (U : Unicode) (J : ConfigJson) (S : System) (p : Place) where
  saved-eq-ok :
      (new : Config) (text shown : Bytes) (r : Result LoadError (Unit {0}) × World)
      → (after (relabel unsettled r) (λ _. pure text)).0 ≡ ok shown
      → (text ≡ shown) × (r.0 ≡ ok tt) × ((after (relabel unsettled r) (λ _. pure text)).1 ≡ r.1)
  saved-eq-ok new text shown (ok _, w) h = (cc, refl, refl)
  saved-eq-ok new text shown (err e, w) h = cc

  keep-IsKept :
      (new : Config) (text shown : Bytes) (w : World)
      → J.unmarshal (J.marshal new ++ codes "\n") ≡ some new
      → (keep U J S (some p) new text w).0 ≡ ok shown
      → (text ≡ shown) × IsKept J p new (keep U J S (some p) new text w).1.files
  unfolding keep
  keep-IsKept new text shown w back h =
      let (same, saved, there) = saved-eq-ok new text shown (save J S (some p) new w) h in
      (
        same,
        subst (λ (x : World). IsKept J p new x.files) (sym there)
            (save-IsKept J p S new w back saved),
      )

  -- What a command does behind the loading of the settings.
  loaded-then :
      (r : Result LoadError Config × World) (old : Config) (next : Config → Io Error Bytes)
      → r.0 ≡ ok old
      → after (relabel unsettled r) next ≡ next old r.1
  loaded-then (ok c, w) old next h = let same : c ≡ old = cc in ap (λ x. next x w) same
  loaded-then (err e, w) old next h = cc

  keep_later :
      (new : Config) (text shown : Bytes) (host random : Option Bytes)
      (r : Result Error Bytes × World) (w later : World)
      → J.unmarshal (J.marshal new ++ codes "\n") ≡ some new
      → r ≡ keep U J S (some p) new text w
      → r.0 ≡ ok shown
      → later.files ≡ r.1.files
      → first_answer later.answers ≡ works
      → (shown ≡ text)
        × (validate new ≡ ok tt)
        × ((load_or_create J S (some p) host random later).0 ≡ ok new)
  keep_later new text shown host random r w later back e h same reads =
      let (printed, k) =
        keep-IsKept new text shown w back
          (sym (ap (λ (q : Result Error Bytes × World). q.0) e) ∙ h) in
      let kept : IsKept J p new later.files =
        subst (IsKept J p new) (sym (same ∙ ap (λ (q : Result Error Bytes × World). q.1.files) e))
          k in
      (sym printed, kept.valid, (kept-load J p S host random new later kept reads).0)

  module _ (host random host' random' : Option Bytes) where
    -- A renaming that succeeds has printed the new name, trimmed, and its alias; the settings are valid, the
    -- loaded ones with that name, and every later load that can read the file gives them; if JSON reads back
    -- what it writes of them and nothing else has changed the file.
    pub rename-eq-ok :
        (nickname shown : Bytes) (old new : Config) (w later : World)
        → (load_or_create J S (some p) host random w).0 ≡ ok old
        → new ≡ record old { nickname = trim_space nickname }
        → J.unmarshal (J.marshal new ++ codes "\n") ≡ some new
        → (rename U J S (some p) host random nickname w).0 ≡ ok shown
        → later.files ≡ (rename U J S (some p) host random nickname w).1.files
        → first_answer later.answers ≡ works
        → (shown ≡ shown_name U new)
          × (validate new ≡ ok tt)
          × ((load_or_create J S (some p) host' random' later).0 ≡ ok new)
    unfolding rename
    rename-eq-ok nickname shown old new w later loaded e back h same reads =
        let first = load_or_create J S (some p) host random w in
        let change = λ (c : Config). record c { nickname = trim_space nickname } in
        let next : Config → Io Error Bytes =
          λ c. keep U J S (some p) (change c) (shown_name U (change c)) in
        keep_later new (shown_name U new) shown host' random'
          (rename U J S (some p) host random nickname w) first.1 later back
          (loaded-then first old next loaded
            ∙ ap (λ c. keep U J S (some p) c (shown_name U c) first.1) (sym e))
          h same reads

    -- A change of the group that succeeds has printed the new group, trimmed, which is not empty; the
    -- settings are valid, the loaded ones with that group, and every later load that can read the file gives
    -- them; if JSON reads back what it writes of them and nothing else has changed the file.
    pub set_group-eq-ok :
        (name shown : Bytes) (old new : Config) (w later : World)
        → (load_or_create J S (some p) host random w).0 ≡ ok old
        → new ≡ record old { group = trim_space name }
        → J.unmarshal (J.marshal new ++ codes "\n") ≡ some new
        → (set_group U J S (some p) host random name w).0 ≡ ok shown
        → later.files ≡ (set_group U J S (some p) host random name w).1.files
        → first_answer later.answers ≡ works
        → (is_empty new.group ≡ false)
          × (shown ≡ shown_group new)
          × (validate new ≡ ok tt)
          × ((load_or_create J S (some p) host' random' later).0 ≡ ok new)
    unfolding set_group
    set_group-eq-ok name shown old new w later loaded e back h same reads =
        let first = load_or_create J S (some p) host random w in
        let change = λ (c : Config). record c { group = trim_space name } in
        let next : Config → Io Error Bytes = λ c.
          from_result (refuse (is_empty (trim_space name)) empty_group)
          >> keep U J S (some p) (change c) (shown_group (change c)) in
        let run = set_group U J S (some p) host random name w in
        let all = loaded-then first old next loaded in
        let (given, on) =
          refused-eq-ok (is_empty (trim_space name))
            (keep U J S (some p) (change old) (shown_group (change old))) first.1
            (sym (ap (λ (q : Result Error Bytes × World). q.0) all) ∙ h) in
        let (printed, valid, again) =
          keep_later new (shown_group new) shown host' random' run first.1 later back
            (all ∙ on ∙ ap (λ c. keep U J S (some p) c (shown_group c) first.1) (sym e)) h same
            reads in
        (ap (λ (c : Config). is_empty c.group) e ∙ given, printed, valid, again)
      where
        refused-eq-ok :
            (b : Bool) (m : Io Error Bytes) (x : World)
            → ((from_result (refuse b empty_group) >> m) x).0 ≡ ok shown
            → (b ≡ false) × ((from_result (refuse b empty_group) >> m) x ≡ m x)
        refused-eq-ok false m x h = (refl, refl)
        refused-eq-ok true m x h = cc
