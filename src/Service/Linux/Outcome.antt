-- ===== src/Service/Linux/Outcome.antt =====
-- What an installation under systemd leaves, however it ends.
use lan_nickname.Base.{
  List, Option, none, some, Bool, true, false, not, [], ◌∷◌, ◌≡◌, ◌≢◌, refl, sym, ◌∙◌, ◌⊎◌, inl,
  inr, Result, ok, err, refuse, Bytes, codes, equal, ne_of_equal,
}
use lan_nickname.Base.Dict.{Dict, lookup}
use lan_nickname.Config.State.{System, temporary_of, temporary_apart}
use lan_nickname.Files.{World, Io, pure, ◌>>◌, from_result, call, asking, after}
use lan_nickname.Files.Quiet.{
  IsQuiet, quiet_front, call-IsQuiet, from_result-IsQuiet, pure-IsQuiet, if-IsQuiet, >>=-IsQuiet,
}
use lan_nickname.Files.Replace.{Updates, text_in}
use lan_nickname.Service.{
  Error, not_root, no_manager, inspect_failed, Platform, StateOwner, validate_install_inputs,
  state_owner, exists_file, write_definition, there,
}
use lan_nickname.Service.Copy.{
  install_executable, install_executable-Updates, write_definition-Updates,
}
use lan_nickname.Service.Linux.{
  linux_executable, systemd_unit, systemctl, service, require, if_installed, install_for, install,
}
use lan_nickname.Service.Render.{render_systemd}

pub systemctl-IsQuiet : (arguments : List Bytes) → IsQuiet (systemctl arguments)
unfolding systemctl
systemctl-IsQuiet arguments = call-IsQuiet _ _

require-IsQuiet : (root : Bool) → IsQuiet (require root)
unfolding require
require-IsQuiet root =
    >>=-IsQuiet (from_result (refuse (not root) not_root)) _ (from_result-IsQuiet _)
      (λ _. call-IsQuiet (asking (codes "systemctl")) no_manager)

exists_file-IsQuiet : (path : Bytes) → IsQuiet (exists_file path)
unfolding exists_file
exists_file-IsQuiet path = record {
  unchanged = λ w.
      seen w (lookup path w.files) (call (asking path) inspect_failed w)
        ((call-IsQuiet (asking path) inspect_failed).unchanged w);
}
  where
    seen :
        (w : World) (o : Option Bytes) (r : Result Error (Unit {0}) × World)
        → r.1.files ≡ w.files
        → (there o r).1.files ≡ w.files
    seen w none r e = e
    seen w (some s) (ok _, w') e = e
    seen w (some s) (err f, w') e = e

if_installed-IsQuiet : (m : Io Error (Unit {0})) → IsQuiet m → IsQuiet (if_installed m)
unfolding if_installed
if_installed-IsQuiet m quiet =
    >>=-IsQuiet (exists_file systemd_unit) _ (exists_file-IsQuiet systemd_unit)
      (λ b. if-IsQuiet b m (pure tt) quiet (pure-IsQuiet tt))

executable-unit : linux_executable ≢ systemd_unit
unfolding equal
executable-unit = ne_of_equal linux_executable systemd_unit refl

executable-temporary : linux_executable ≢ temporary_of systemd_unit
unfolding equal
executable-temporary = ne_of_equal linux_executable (temporary_of systemd_unit) refl

unit-temporary : systemd_unit ≢ temporary_of linux_executable
unfolding equal
unit-temporary = ne_of_equal systemd_unit (temporary_of linux_executable) refl

module _ (P : Platform) (S : System) (source state_dir : Bytes) where
  abbrev NewUnit : Bytes → Type 0
  NewUnit s =
      (owner : StateOwner) × (state_owner S ≡ ok owner)
      × (s ≡ render_systemd P linux_executable state_dir owner)

  -- What an installation that began with the old files has done to the executable and to the unit.
  abbrev pub Installed : Dict Bytes → Result Error (Unit {0}) × World → Type 0
  Installed old (ok _, w) =
      (text_in linux_executable w.files ≡ text_in source old)
      × NewUnit (text_in systemd_unit w.files)
  Installed old (err _, w) =
      ((lookup linux_executable w.files ≡ lookup linux_executable old)
        ⊎ (text_in linux_executable w.files ≡ text_in source old))
      × ((lookup systemd_unit w.files ≡ lookup systemd_unit old)
          ⊎ NewUnit (text_in systemd_unit w.files))

  module _ (old : Dict Bytes) where
    untouched : (e : Error) (w : World) → w.files ≡ old → Installed old (err e, w)
    untouched e w same = (inl (rw same refl), inl (rw same refl))

    abbrev started : Io Error (Unit {0})
    started =
        systemctl (codes "daemon-reload" ∷ [])
        >> systemctl (codes "enable" ∷ codes "--now" ∷ service ∷ [])

    started-IsQuiet : IsQuiet started
    started-IsQuiet =
        >>=-IsQuiet (systemctl (codes "daemon-reload" ∷ [])) _
          (systemctl-IsQuiet (codes "daemon-reload" ∷ []))
          (λ _. systemctl-IsQuiet (codes "enable" ∷ codes "--now" ∷ service ∷ []))

    both-Installed :
        (w : World) (r : Result Error (Unit {0}) × World)
        → r.1.files ≡ w.files
        → text_in linux_executable w.files ≡ text_in source old
        → NewUnit (text_in systemd_unit w.files)
        → Installed old r
    both-Installed w (ok _, w') same exe unit = (rw same exe, rw same unit)
    both-Installed w (err e, w') same exe unit = (inr (rw same exe), inr (rw same unit))

    -- From the unit on.
    unit-Installed :
        (w : World) (r : Result Error (Unit {0}) × World) (owner : StateOwner)
        → state_owner S ≡ ok owner
        → text_in linux_executable w.files ≡ text_in source old
        → lookup systemd_unit w.files ≡ lookup systemd_unit old
        → Updates
            (temporary_of systemd_unit)
            systemd_unit
            (λ s. s ≡ render_systemd P linux_executable state_dir owner)
            w.files
            r
        → Installed old (after r (λ _. started))
    unit-Installed w (err e, w₁) owner is exe unit h = (
      inr (rw (h linux_executable executable-temporary) exe),
      inl (h systemd_unit (temporary_apart systemd_unit) ∙ unit),
    )
    unit-Installed w (ok _, w₁) owner is exe unit (text, others) =
        both-Installed w₁ (started w₁) (started-IsQuiet.unchanged w₁)
          (rw (others linux_executable executable-unit executable-temporary) exe) (owner, is, text)

    -- From the executable on.
    executable-Installed :
        (r : Result Error (Unit {0}) × World) (owner : StateOwner)
        → state_owner S ≡ ok owner
        → Updates
            (temporary_of linux_executable)
            linux_executable
            (λ s. s ≡ text_in source old)
            old
            r
        → Installed old (
            after r (λ _.
              write_definition P systemd_unit (render_systemd P linux_executable state_dir owner)
              >> started))
    executable-Installed (err e, w) owner is h = (
      inl (h linux_executable (temporary_apart linux_executable)),
      inl (h systemd_unit unit-temporary),
    )
    executable-Installed (ok _, w) owner is (text, others) =
        let unit = render_systemd P linux_executable state_dir owner in
        unit-Installed w (write_definition P systemd_unit unit w) owner is text
          (others systemd_unit (λ e. executable-unit (sym e)) unit-temporary)
          (write_definition-Updates P systemd_unit unit w.files w refl)

    module _ (foreign : P.same_file source linux_executable ≡ false)
        (apart : source ≢ temporary_of linux_executable) where
      abbrev stop : Io Error (Unit {0})
      stop = if_installed (systemctl (codes "stop" ∷ service ∷ []))

      install_for-Installed :
          (owner : StateOwner) (w : World)
          → state_owner S ≡ ok owner
          → w.files ≡ old
          → Installed old (install_for P S true source state_dir owner w)
      unfolding install_for
      install_for-Installed owner w is same =
          quiet_front (Installed old) old stop _
            (if_installed-IsQuiet _ (systemctl-IsQuiet (codes "stop" ∷ service ∷ []))) untouched
            (λ _ w' same'.
              executable-Installed (install_executable P source linux_executable w') owner is
                (install_executable-Updates P source linux_executable old w' foreign apart same'))
            w same

      owned-Installed :
          (m : Result Error StateOwner) (w : World)
          → state_owner S ≡ m
          → w.files ≡ old
          → Installed old (after (m, w) (install_for P S true source state_dir))
      owned-Installed (ok owner) w is same = install_for-Installed owner w is same
      owned-Installed (err e) w is same = untouched e w same

  -- However the system answers, for a source that is neither the installed executable nor its temporary: a
  -- success leaves the source's text as the executable and the unit rendered for it; after a failure each of
  -- the two is as it was or as after a success, and never a part of it.
  pub install-Installed :
      (w : World)
      → P.same_file source linux_executable ≡ false
      → source ≢ temporary_of linux_executable
      → Installed w.files (install P S true source state_dir w)
  unfolding install
  install-Installed w foreign apart =
      quiet_front (Installed w.files) w.files (require true) _ (require-IsQuiet true)
        (untouched w.files)
        (λ _ w₁ same₁.
          quiet_front (Installed w.files) w.files
            (from_result (validate_install_inputs P source state_dir)) _ (from_result-IsQuiet _)
            (untouched w.files)
            (λ _ w₂ same₂. owned-Installed w.files foreign apart (state_owner S) w₂ refl same₂) w₁
            same₁)
        w refl
