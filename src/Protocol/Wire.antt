-- ===== src/Protocol/Wire.antt =====
-- Announcements on the wire.
use lan_nickname.Base.{
  ◌≤◌, true, ok, refuse-eq-ok, >>=-eq-ok, not_ltb_of_le, ◌≡◌, refl, Bytes, length, Option, none,
  some, le_of_not_ltb, ◌∙◌, ltb, ap, subst,
}
use lan_nickname.Protocol.{
  Announcement, Json, max_announcement, validate, encode, decode, read_json, oversized,
}
use lan_nickname.Protocol.Valid.{IsValid, validate-IsValid}
use lan_nickname.Text.Fields.{is_utf8}
use lan_nickname.Text.Unicode.{Unicode}

-- Texts that JSON keeps: it replaces what is no UTF-8.
abbrev pub IsText : Announcement → Type 0
IsText a =
    (is_utf8 a.id ≡ true)
    × (is_utf8 a.nickname ≡ true)
    × (is_utf8 a.alias_name ≡ true)
    × (is_utf8 a.group ≡ true)
    × (is_utf8 a.host_key ≡ true)

-- What JSON writes of texts it reads back.
abbrev pub ReadsBack : Json → Type 0
ReadsBack J = (a : Announcement) → IsText a → J.unmarshal (J.marshal a) ≡ some a

read_json-eq-ok : (o : Option Announcement) {a : Announcement} → read_json o ≡ ok a → o ≡ some a
unfolding read_json
read_json-eq-ok none h = cc
read_json-eq-ok (some b) h = cc

module _ (U : Unicode) (J : Json) where
  pub decode-encode :
      (a : Announcement) {payload : Bytes}
      → ReadsBack J
      → IsText a
      → encode U J a ≡ ok payload
      → length payload ≤ max_announcement
      → decode U J payload ≡ ok a
  unfolding encode decode
  decode-encode a {payload} back text e fits =
      let (_, v, same) = >>=-eq-ok (validate U a) _ e in
      let written : payload ≡ J.marshal a = cc in
      rw (not_ltb_of_le max_announcement (length payload) fits)
        (rw written (rw (back a text) (rw v refl)))

  -- Whatever bytes arrive: a datagram that is accepted has at most 1536 bytes and holds a valid
  -- announcement, whose alias is a host label.
  pub decode-IsValid :
      (payload : Bytes) {a : Announcement}
      → decode U J payload ≡ ok a
      → (length payload ≤ max_announcement) × (J.unmarshal payload ≡ some a) × IsValid U a
  unfolding decode
  decode-IsValid payload {a} e =
      let (fits, e₁) = refuse-eq-ok (ltb max_announcement (length payload)) oversized _ e in
      let (b, read, e₂) = >>=-eq-ok (read_json (J.unmarshal payload)) _ e₁ in
      let (_, v, same) = >>=-eq-ok (validate U b) _ e₂ in
      let is : b ≡ a = cc in
      (
        le_of_not_ltb _ _ fits,
        read_json-eq-ok (J.unmarshal payload) (read ∙ ap ok is),
        subst (IsValid U) is (validate-IsValid U b v),
      )
