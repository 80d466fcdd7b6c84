-- ===== src/Protocol/Valid.antt =====
-- What the validation of an announcement establishes.
use lan_nickname.Base.{
  ℕ, ◌≤◌, true, false, ◌||◌, Result, ok, err, ◌>>◌, refuse-eq-ok, refuse-not-eq-ok, ◌≡◌, ◌≢◌, refl,
  ◌⊎◌, Bytes, length, is_empty, [], member, equal, equal_iff, le_of_not_ltb, ==_iff, ltb, ◌==◌, ◌∷◌,
}
use lan_nickname.Config
use lan_nickname.Protocol
use lan_nickname.Config.{Config, is_id, validate_group, alias, reserved, any_control}
use lan_nickname.Config.Alias.{alias-IsLabel}
use lan_nickname.Config.Label.{IsLabel}
use lan_nickname.Protocol.{
  Announcement, version, validate, lift, bad_group, bad_key, wrong_version, bad_id,
  bad_nickname_length, wrong_alias, new_announcement,
}
use lan_nickname.Protocol.HostKey.{validate_key, validate_key-IsKey, IsKey, max_key}
use lan_nickname.Text.Utf8.{runes}
use lan_nickname.Text.Unicode.{Unicode, trim_space}

module _ (U : Unicode) where
  -- An announcement as the rest of the program relies on it.
  pub record IsValid (a : Announcement) : Type 0 where
    pub current : a.version_number ≡ version
    pub identified : is_id a.id ≡ true
    pub named : (a.nickname ≢ []) × (length a.nickname ≤ 128)
    pub derived : a.alias_name ≡ alias U a.nickname
    pub label : IsLabel a.alias_name
    pub free : member a.alias_name reserved ≡ false
    pub grouped : validate_group a.group ≡ ok tt
    pub keyed : (a.host_key ≡ []) ⊎ (IsKey a.host_key × (length a.host_key ≤ max_key))

  lift-eq-ok {ℓ} :
      {E : Type 0} {A : Type ℓ} (f : E → Protocol.Error) (m : Result E (Unit {0}))
      (k : Result Protocol.Error A) {x : A}
      → (lift f m >> k) ≡ ok x
      → (m ≡ ok tt) × (k ≡ ok x)
  lift-eq-ok f (ok a) k h = (refl, h)
  lift-eq-ok f (err e) k h = cc

  lift_last-eq-ok :
      {E : Type 0} (f : E → Protocol.Error) (m : Result E (Unit {0})) → lift f m ≡ ok tt → m ≡ ok tt
  lift_last-eq-ok f (ok a) h = refl
  lift_last-eq-ok f (err e) h = cc

  nickname-bounds :
      (s : Bytes) → (is_empty s || ltb 128 (length s)) ≡ false → (s ≢ []) × (length s ≤ 128)
  nickname-bounds [] h = cc
  nickname-bounds (c ∷ s) h = ((λ e. cc), le_of_not_ltb 128 _ h)

  pub validate-IsValid : (a : Announcement) → validate U a ≡ ok tt → IsValid a
  unfolding validate
  validate-IsValid a h =
      let (v, h₁) = refuse-not-eq-ok (a.version_number == version) wrong_version _ h in
      let (i, h₂) = refuse-not-eq-ok (is_id a.id) bad_id _ h₁ in
      let (n, h₃) =
        refuse-eq-ok (is_empty a.nickname || ltb 128 (length a.nickname)) bad_nickname_length _
          h₂ in
      let (d, h₄) = refuse-not-eq-ok (equal a.alias_name (alias U a.nickname)) wrong_alias _ h₃ in
      let (g, h₅) = lift-eq-ok bad_group (validate_group a.group) _ h₄ in
      let derived = (equal_iff a.alias_name (alias U a.nickname)).0 d in
      let (label, free) = alias-IsLabel U a.nickname in
      record {
        current = (==_iff a.version_number version).0 v;
        identified = i;
        named = nickname-bounds a.nickname n;
        derived = derived;
        label = rw derived label;
        free = rw derived free;
        grouped = g;
        keyed =
            validate_key-IsKey a.host_key (lift_last-eq-ok bad_key (validate_key a.host_key) h₅);
      }

  trim_space-nonempty : (s : Bytes) → is_empty (trim_space s) ≡ false → is_empty s ≡ false
  unfolding trim_space
  trim_space-nonempty [] h = cc
  trim_space-nonempty (c ∷ s) h = refl

  -- What a machine with valid settings and a valid host key advertises passes the validation of every
  -- receiver.
  pub validate-new_announcement :
      (cfg : Config) (now : ℕ) (key : Bytes)
      → Config.validate cfg ≡ ok tt
      → validate_key key ≡ ok tt
      → validate U (new_announcement U cfg now key) ≡ ok tt
  unfolding validate new_announcement Config.validate
  validate-new_announcement cfg now key v k =
      let (i, h₁) = refuse-not-eq-ok (is_id cfg.id) Config.bad_id _ v in
      let (b, h₂) = refuse-eq-ok (is_empty (trim_space cfg.nickname)) Config.blank_nickname _ h₁ in
      let (n, h₃) = refuse-eq-ok (ltb 128 (length cfg.nickname)) Config.long_nickname _ h₂ in
      let (c, g) = refuse-eq-ok (any_control (runes cfg.nickname)) Config.control_nickname _ h₃ in
      rw
        (
          i,
          trim_space-nonempty cfg.nickname b,
          n,
          (equal_iff (alias U cfg.nickname) (alias U cfg.nickname)).1 refl,
          g,
          k,
        )
        refl
