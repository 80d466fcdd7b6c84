-- ===== src/Tests/Wire.antt =====
-- Announcements on the wire.
use lan_nickname.Agent.Receive.{Datagram, receive}
use lan_nickname.Base.{◌∷◌, List, none, ◌≤◌, [], ◌≡◌, refl, ok, err, some, codes, length, arith}
use lan_nickname.Config
use lan_nickname.Config.{Config, alias}
use lan_nickname.Protocol.{
  encode, decode, validate, new_announcement, max_announcement, wrong_alias,
}
use lan_nickname.Protocol.HostKey.{validate_key}
use lan_nickname.Protocol.Valid.{IsValid, validate-new_announcement}
use lan_nickname.Protocol.Wire.{decode-encode, decode-IsValid, IsText}
use lan_nickname.Text.Fields.{is_utf8}
use lan_nickname.Tests.Values.{
  read_fields, write_fields, net, ascii, json, json-ReadsBack, heard, id₁, key, write_fields, put,
}

heard_IsText : IsText heard
unfolding is_utf8
heard_IsText = (refl, refl, refl, refl, refl)

heard_encoded : encode ascii json heard ≡ ok (json.marshal heard)
unfolding encode
heard_encoded = refl

heard_fits : length (json.marshal heard) ≤ max_announcement
unfolding write_fields put
heard_fits = omega arith

decode-encode_example : decode ascii json (json.marshal heard) ≡ ok heard
decode-encode_example =
    decode-encode ascii json heard json-ReadsBack heard_IsText heard_encoded heard_fits

decode-IsValid_example :
    (length (json.marshal heard) ≤ max_announcement)
    × (json.unmarshal (json.marshal heard) ≡ some heard)
    × IsValid ascii heard
decode-IsValid_example = decode-IsValid ascii json (json.marshal heard) decode-encode_example

-- A nickname that the settings refuse is accepted from the network: here one with a line end.
two_lines :
    validate ascii (record heard { nickname = codes "a\nb"; alias_name = codes "a-b" }) ≡ ok tt
unfolding validate
two_lines = refl

other_alias : validate ascii (record heard { alias_name = codes "localhost" }) ≡ err wrong_alias
unfolding validate
other_alias = refl

abbrev machine : Config
machine = record { id = id₁; nickname = codes "Living Room"; group = [] }

validate-new_announcement_example : validate ascii (new_announcement ascii machine 7 key) ≡ ok tt
unfolding Config.validate validate_key
validate-new_announcement_example = validate-new_announcement ascii machine 7 key refl refl

-- Of these, only the second is from a peer and can be read.
abbrev arriving : List Datagram
arriving =
    (record { source = none; payload = json.marshal heard })
    ∷ (record { source = some (codes "10.0.0.5"); payload = json.marshal heard })
    ∷ (record { source = some (codes "10.0.0.6"); payload = [] })
    ∷ []

one_received : receive ascii json net arriving ≡ (heard, codes "10.0.0.5") ∷ []
unfolding receive read_fields write_fields
one_received = refl
