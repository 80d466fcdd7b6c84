-- ===== src/Protocol/HostKey.antt =====
-- internal/protocol/ssh_host_key.go: SSH host public keys.
use lan_nickname.Base.{
  ℕ, ◌*◌, Bool, false, true, length-append, not, ◌||◌, List, [], ◌∷◌, ◌++◌, ◌≡◌, refl, Result, ok,
  err, ◌>>◌, refuse, Option, none, some, ltb, ◌==◌, equal, equal_iff, if◌then◌else◌, Bytes, length,
  is_empty, member, take, codes, All, arith, Bool-cases, inl, inr, refuse-eq-ok, refuse-not-eq-ok,
  le_of_not_ltb, ◌⊎◌, ◌≤◌, ◌≢◌, All-append, ◌^◌, drop, zero, suc, ap, ◌∙◌, ◌↔◌, take-append,
  not_ltb_of_le, ◌+◌,
}
use lan_nickname.Text.Base64.{base64_decode, base64_decode-Free}
use lan_nickname.Text.Fields.{fields, fields-clear}
use lan_nickname.Text.Utf8.{NoLineEnd}
use lan_nickname.Text.Search.{Free}

pub data KeyError : Type 0 where
  missing_fields long_key not_normalized unsupported_type bad_base64 truncated_blob : KeyError
  type_mismatch : KeyError

abbrev pub max_key : ℕ
max_key = 1024

abbrev pub supported_types : List Bytes
supported_types = codes "ecdsa-sha2-nistp256" ∷ codes "ssh-ed25519" ∷ codes "ssh-rsa" ∷ []

-- `fields[0] + " " + fields[1]`
abbrev pub joined : Bytes → Bytes → Bytes
joined kind key = kind ++ b' ' ∷ key

-- The big-endian number in front of the blob, and the blob behind it.
unfoldable pub check_blob : Bytes → Bytes → Result KeyError (Unit {0})
unfolding equal
check_blob kind (a ∷ b ∷ c ∷ d ∷ rest) =
    let size = a * 16777216 + b * 65536 + c * 256 + d in
    refuse
      (not (size == length kind) || ltb (length rest) size || not (equal (take size rest) kind))
      type_mismatch
check_blob kind _ = err truncated_blob

unfoldable pub check_encoded : Bytes → Option Bytes → Result KeyError (Unit {0})
unfolding check_blob
check_encoded kind none = err bad_base64
check_encoded kind (some blob) = check_blob kind blob

-- The checks behind `strings.Fields`.
unfoldable pub check_fields : Bytes → List Bytes → Result KeyError (Unit {0})
unfolding check_encoded base64_decode member
check_fields key (kind ∷ encoded ∷ []) = do
  refuse (not (equal key (joined kind encoded))) not_normalized
  refuse (not (member kind supported_types)) unsupported_type
  check_encoded kind (base64_decode encoded)
check_fields key _ = err not_normalized

unfoldable pub validate_key : Bytes → Result KeyError (Unit {0})
unfolding check_fields fields
validate_key key =
    if is_empty key
    then ok tt
    else do refuse (ltb max_key (length key)) long_key; check_fields key (fields key)

unfoldable pub parse_fields : List Bytes → Result KeyError Bytes
unfolding validate_key
parse_fields (kind ∷ encoded ∷ _) = do validate_key (joined kind encoded); ok (joined kind encoded)
parse_fields _ = err missing_fields

unfoldable pub parse_key : Bytes → Result KeyError Bytes
unfolding parse_fields fields
parse_key contents = parse_fields (fields contents)

-- A blob that begins with the length of the type, big-endian in four bytes, and the type.
pub record IsBlob (kind blob : Bytes) : Type 0 where
  pub a : ℕ
  pub b : ℕ
  pub c : ℕ
  pub d : ℕ
  pub rest : Bytes
  pub shape : blob ≡ a ∷ b ∷ c ∷ d ∷ (kind ++ rest)
  pub size : a * 2 ^ 24 + b * 2 ^ 16 + c * 2 ^ 8 + d ≡ length kind

-- A valid key.
pub record IsKey (key : Bytes) : Type 0 where
  pub kind : Bytes
  pub encoded : Bytes
  pub blob : Bytes
  pub shape : key ≡ joined kind encoded
  pub split : fields key ≡ kind ∷ encoded ∷ []
  pub supported : member kind supported_types ≡ true
  pub decoded : base64_decode encoded ≡ some blob
  pub named : IsBlob kind blob

take-drop : (n : ℕ) (s : Bytes) → s ≡ take n s ++ drop n s
take-drop zero s = refl
take-drop (suc n) [] = refl
take-drop (suc n) (c ∷ s) = ap (λ t. c ∷ t) (take-drop n s)

not_refused : (b : Bool) (e : KeyError) → refuse b e ≡ ok tt → b ≡ false
not_refused false e h = refl
not_refused true e h = cc

no_test : (a b c : Bool) → (not a || b || not c) ≡ false → (a ≡ true) × (b ≡ false) × (c ≡ true)
no_test a b c h = ground arith

check_blob-IsBlob : (kind blob : Bytes) → check_blob kind blob ≡ ok tt → IsBlob kind blob
unfolding check_blob
check_blob-IsBlob kind (a ∷ b ∷ c ∷ d ∷ rest) h =
    let size = a * 16777216 + b * 65536 + c * 256 + d in
    let (same, long, begins) =
      no_test (size == length kind) (ltb (length rest) size) (equal (take size rest) kind)
        (not_refused _ type_mismatch h) in
    record {
      a = a;
      b = b;
      c = c;
      d = d;
      rest = drop size rest;
      shape =
          ap (λ t. a ∷ b ∷ c ∷ d ∷ t)
            (take-drop size rest
              ∙ ap (λ k. k ++ drop size rest) ((equal_iff (take size rest) kind).0 begins));
      size = ground arith;
    }
check_blob-IsBlob kind [] h = cc
check_blob-IsBlob kind (a ∷ []) h = cc
check_blob-IsBlob kind (a ∷ b ∷ []) h = cc
check_blob-IsBlob kind (a ∷ b ∷ c ∷ []) h = cc

check_encoded-eq-ok :
    (kind : Bytes) (o : Option Bytes)
    → check_encoded kind o ≡ ok tt
    → (blob : Bytes) × (o ≡ some blob) × IsBlob kind blob
unfolding check_encoded
check_encoded-eq-ok kind none h = cc
check_encoded-eq-ok kind (some blob) h = (blob, refl, check_blob-IsBlob kind blob h)

check_fields-IsKey :
    (key : Bytes) (fs : List Bytes) → fields key ≡ fs → check_fields key fs ≡ ok tt → IsKey key
unfolding check_fields
check_fields-IsKey key (kind ∷ encoded ∷ []) e h =
    let (same, h₁) = refuse-not-eq-ok (equal key (joined kind encoded)) not_normalized _ h in
    let (known, h₂) = refuse-not-eq-ok (member kind supported_types) unsupported_type _ h₁ in
    let (blob, decoded, named) = check_encoded-eq-ok kind (base64_decode encoded) h₂ in
    record {
      kind = kind;
      encoded = encoded;
      blob = blob;
      shape = (equal_iff key (joined kind encoded)).0 same;
      split = e;
      supported = known;
      decoded = decoded;
      named = named;
    }
check_fields-IsKey key [] e h = cc
check_fields-IsKey key (kind ∷ []) e h = cc
check_fields-IsKey key (kind ∷ encoded ∷ more ∷ fs) e h = cc

pub validate_key-IsKey :
    (key : Bytes) → validate_key key ≡ ok tt → (key ≡ []) ⊎ (IsKey key × (length key ≤ max_key))
unfolding validate_key
validate_key-IsKey [] h = inl refl
validate_key-IsKey (c ∷ key) h =
    let (fits, h') = refuse-eq-ok (ltb max_key (length (c ∷ key))) long_key _ h in
    inr (check_fields-IsKey (c ∷ key) (fields (c ∷ key)) refl h', le_of_not_ltb _ _ fits)

IsBlob-check_blob : (kind blob : Bytes) → IsBlob kind blob → check_blob kind blob ≡ ok tt
unfolding check_blob
IsBlob-check_blob kind blob k =
    let n = length kind in
    let whole : length (kind ++ k.rest) ≡ n + length k.rest = length-append kind k.rest in
    let same = (equal_iff kind kind).1 refl in
    let equals : (n == n) ≡ true = ground arith in
    let fits : ltb (n + length k.rest) n ≡ false = ground arith in
    rw (k.shape, k.size, equals, whole, fits, take-append kind k.rest, same) refl

not_empty : (s : Bytes) (c : ℕ) (t : Bytes) → is_empty (s ++ c ∷ t) ≡ false
not_empty [] c t = refl
not_empty (d ∷ s) c t = refl

IsKey-validate_key : (key : Bytes) → IsKey key → length key ≤ max_key → validate_key key ≡ ok tt
unfolding validate_key check_fields check_encoded
IsKey-validate_key key k fits =
    let written : is_empty key ≡ false = rw k.shape (not_empty k.kind b' ' k.encoded) in
    let short = not_ltb_of_le max_key (length key) fits in
    let same = (equal_iff key (joined k.kind k.encoded)).1 k.shape in
    rw (written, short, k.split, same, k.supported, k.decoded)
      (IsBlob-check_blob k.kind k.blob k.named)

-- A key passes exactly if it is empty, or if it is at most 1024 bytes of two fields joined by one space: a
-- supported type, and the base64 text of a blob that begins with the length of the type, big-endian in four
-- bytes, and the type.
pub validate_key_iff :
    (key : Bytes) → (validate_key key ≡ ok tt) ↔ ((key ≡ []) ⊎ (IsKey key × (length key ≤ max_key)))
unfolding validate_key
validate_key_iff key = (
  validate_key-IsKey key,
  λ h. elim h [ inl e ↦ rw e refl | inr (k, fits) ↦ IsKey-validate_key key k fits ],
)

supported-All :
    (P : ℕ → Type 0) (k : Bytes) (kinds : List Bytes)
    → All (All P) kinds
    → member k kinds ≡ true
    → All P k
unfolding member
supported-All P k [] a h = cc
supported-All P k (x ∷ xs) a h = elim (Bool-cases (equal k x)) [
  | inl e ↦ rw ((equal_iff k x).0 e) a.0
  | inr e ↦ supported-All P k xs a.1 (rw e at h)
]

-- A key is written on one line and holds no `#`.
pub IsKey-plain : {key : Bytes} → IsKey key → NoLineEnd key × Free b'#' key
IsKey-plain {key} k =
    let clear : All NoLineEnd (k.kind ∷ k.encoded ∷ []) = rw k.split at (fields-clear key) in
    (
      rw k.shape (All-append _ k.kind (b' ' ∷ k.encoded) clear.0 (refl, clear.1.0)),
      rw k.shape (
          All-append (λ c. c ≢ b'#') k.kind (b' ' ∷ k.encoded)
            (supported-All (λ c. c ≢ b'#') k.kind supported_types (omega arith) k.supported)
            ((omega arith), base64_decode-Free k.encoded k.decoded)),
    )
