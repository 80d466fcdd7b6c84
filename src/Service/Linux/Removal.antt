-- ===== src/Service/Linux/Removal.antt =====
-- What the removal of the service under systemd leaves.
use lan_nickname.Base.{
  true, List, [], ◌∷◌, ◌≡◌, refl, ◌∙◌, ap, none, Result, ok, err, Bytes, codes, equal_iff, arith,
}
use lan_nickname.Base.Dict.{lookup, lookup-erase}
use lan_nickname.Files.{
  Answer, works, fails, Call, World, Io, call, asking, running, removing, remove_file, removed,
  first_answer, noted, answered,
}
use lan_nickname.Service.{Error, remove_failed, command_failed, first_error, ◌also◌}
use lan_nickname.Service.Linux.Outcome.{systemctl-IsQuiet}
use lan_nickname.Service.Linux.{
  linux_executable, systemd_unit, systemctl, service, require, if_installed, uninstall,
}

abbrev reload : Call
reload = running (codes "systemctl" ∷ codes "daemon-reload" ∷ [])

module _ {E : Type 0} (path : Bytes) (e : E) (w : World) where
  remove_file-calls : (remove_file path e w).1.calls ≡ removing path ∷ w.calls
  unfolding remove_file
  remove_file-calls = by_answer (first_answer w.answers)
    where
      by_answer :
          (a : Answer)
          → (removed path e a (noted (removing path) w)).1.calls ≡ removing path ∷ w.calls
      by_answer works = refl
      by_answer (fails part) = refl

  remove_file-gone :
      (remove_file path e w).0 ≡ ok tt → lookup path (remove_file path e w).1.files ≡ none
  unfolding remove_file
  remove_file-gone = by_answer (first_answer w.answers)
    where
      by_answer :
          (a : Answer)
          → (removed path e a (noted (removing path) w)).0 ≡ ok tt
          → lookup path (removed path e a (noted (removing path) w)).1.files ≡ none
      by_answer works h = rw lookup-erase (rw ((equal_iff path path).1 refl) refl)
      by_answer (fails part) h = cc

  -- An absent file stays absent.
  remove_file-absent :
      (other : Bytes)
      → lookup other w.files ≡ none
      → lookup other (remove_file path e w).1.files ≡ none
  unfolding remove_file
  remove_file-absent other h = by_answer (first_answer w.answers)
    where
      by_answer :
          (a : Answer) → lookup other (removed path e a (noted (removing path) w)).1.files ≡ none
      by_answer works = rw lookup-erase (ground (arith, h))
      by_answer (fails part) = h

systemctl-calls :
    (arguments : List Bytes) (w : World)
    → (systemctl arguments w).1.calls ≡ running (codes "systemctl" ∷ arguments) ∷ w.calls
unfolding systemctl
systemctl-calls arguments w = by_answer (first_answer w.answers)
  where
    c : Call
    c = running (codes "systemctl" ∷ arguments)

    by_answer :
        (a : Answer)
        → (answered (command_failed (codes "systemctl" ∷ arguments)) a (noted c w)).1.calls
          ≡ c ∷ w.calls
    by_answer works = refl
    by_answer (fails part) = refl

first_error-eq-ok :
    {E : Type 0} (r s : Result E (Unit {0})) → first_error r s ≡ ok tt → (r ≡ ok tt) × (s ≡ ok tt)
first_error-eq-ok (ok _) s h = (refl, h)
first_error-eq-ok (err e) s h = cc

-- All steps behind the look for systemd.
abbrev steps : Io Error (Unit {0})
steps =
    if_installed (systemctl (codes "disable" ∷ codes "--now" ∷ service ∷ []))
    also remove_file systemd_unit remove_failed
    also remove_file linux_executable remove_failed
    also systemctl (codes "daemon-reload" ∷ [])

-- What a removal of the service that began at some world has done.
abbrev pub Removed : Result Error (Unit {0}) × World → Type 0
Removed (r, w) =
    ((before : List Call) × (w.calls
        ≡ reload ∷ removing linux_executable ∷ removing systemd_unit ∷ before))
    × (r ≡ ok tt → (lookup systemd_unit w.files ≡ none) × (lookup linux_executable w.files ≡ none))

steps-Removed : (w : World) → Removed (steps w)
steps-Removed w =
    let disable = if_installed (systemctl (codes "disable" ∷ codes "--now" ∷ service ∷ [])) in
    let unit = remove_file systemd_unit remove_failed in
    let executable = remove_file linux_executable remove_failed in
    let w₁ = (disable w).1 in
    let w₂ = (unit w₁).1 in
    let w₃ = (executable w₂).1 in
    (
      (
        w₁.calls,
        systemctl-calls (codes "daemon-reload" ∷ []) w₃
            ∙ ap (◌∷◌ reload) (
                remove_file-calls linux_executable remove_failed w₂
                ∙ ap (◌∷◌ (removing linux_executable))
                    (remove_file-calls systemd_unit remove_failed w₁)),
      ),
      λ h.
          let (h₁, _) = first_error-eq-ok _ _ h in
          let (h₂, executable_ok) = first_error-eq-ok _ _ h₁ in
          let (_, unit_ok) = first_error-eq-ok _ _ h₂ in
          let same = (systemctl-IsQuiet (codes "daemon-reload" ∷ [])).unchanged w₃ in
          (
            rw same (
                remove_file-absent linux_executable remove_failed w₂ systemd_unit
                  (remove_file-gone systemd_unit remove_failed w₁ unit_ok)),
            rw same (remove_file-gone linux_executable remove_failed w₂ executable_ok),
          ),
    )

-- Once the program runs with privileges and systemd is found, both files are tried to be removed and systemd
-- is reloaded, whatever becomes of each step; and if no error is reported, both files are gone.
pub uninstall-Removed : (w : World) → first_answer w.answers ≡ works → Removed (uninstall true w)
unfolding uninstall require call
uninstall-Removed w reads = rw reads (steps-Removed (noted (asking (codes "systemctl")) w))
