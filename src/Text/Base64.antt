-- ===== src/Text/Base64.antt =====
-- `base64.StdEncoding.DecodeString`: line ends are passed over, and the last group of four may be
-- padded.
use lan_nickname.Base.{
  ℕ, ◌+◌, ◌-◌, ◌*◌, ◌/◌, ◌%◌, Bool, true, false, ◌&&◌, ◌||◌, [], ◌∷◌, ◌≡◌, refl, Option, none, some,
  leb, ◌==◌, if◌then◌else◌, Bytes, is_empty, arith, Bool-cases, inl, inr, ◌⊎◌, ◌≢◌,
}
use lan_nickname.Text.Search.{Free}

-- The six bits of a digit.
digit_value : ℕ → Option ℕ
digit_value c =
    if leb b'A' c && leb c b'Z'
    then some (c - b'A')
    else if leb b'a' c && leb c b'z'
    then some (c - b'a' + 26)
    else if leb b'0' c && leb c b'9'
    then some (c - b'0' + 52)
    else if c == b'+'
    then some 62
    else if c == b'/'
    then some 63
    else none

skip_lines : Bytes → Bytes
skip_lines [] = []
skip_lines (c ∷ s) =
    let rest = skip_lines s in if (c == b'\n') || (c == b'\r') then rest else c ∷ rest

infixl 5 ◌>>=◌
abbrev ◌>>=◌ {ℓ κ} : {A : Type ℓ} {B : Type κ} → Option A → (A → Option B) → Option B
◌>>=◌ none f = none
◌>>=◌ (some a) f = f a

-- The fourth digit of a group and the groups behind it, from the first three values.
fourth : Bool → ℕ → Option Bytes → ℕ → ℕ → ℕ → Option Bytes
unfolding digit_value
fourth last d rest u v w =
    if last && (d == b'=')
    then some ((u * 4 + v / 16) ∷ (v % 16 * 16 + w / 4) ∷ [])
    else digit_value d >>= λ x.
        rest >>= λ more. some ((u * 4 + v / 16) ∷ (v % 16 * 16 + w / 4) ∷ (w % 4 * 64 + x) ∷ more)

third : Bool → ℕ → ℕ → Option Bytes → ℕ → ℕ → Option Bytes
unfolding fourth
third last c d rest u v =
    if last && (c == b'=') && (d == b'=')
    then some ((u * 4 + v / 16) ∷ [])
    else digit_value c >>= λ w. fourth last d rest u v w

decode_groups : Bytes → Option Bytes
unfolding third
decode_groups [] = some []
decode_groups (a ∷ b ∷ c ∷ d ∷ s) =
    let rest = decode_groups s in
    digit_value a >>= λ u. digit_value b >>= λ v. third (is_empty s) c d rest u v
decode_groups _ = none

unfoldable pub base64_decode : Bytes → Option Bytes
unfolding decode_groups skip_lines
base64_decode s = decode_groups (skip_lines s)

-- What is decoded holds no `#`.
digit_value-hash : (c : ℕ) {v : ℕ} → digit_value c ≡ some v → c ≢ b'#'
unfolding digit_value
digit_value-hash c h e = ground arith

bind-eq-some {ℓ κ} :
    {A : Type ℓ} {B : Type κ} (m : Option A) (f : A → Option B) {b : B}
    → (m >>= f) ≡ some b
    → (a : A) × (m ≡ some a) × (f a ≡ some b)
bind-eq-some none f h = cc
bind-eq-some (some a) f h = (a, refl, h)

pad-hash : (d : ℕ) → (d == b'=') ≡ true → d ≢ b'#'
pad-hash d h = ground arith

and_split : (a b : Bool) → (a && b) ≡ true → (a ≡ true) × (b ≡ true)
and_split a b h = ground arith

-- What the last digits hold, and what the groups behind them gave.
abbrev Behind : Bool → Option Bytes → Type 0
Behind last rest = (last ≡ true) ⊎ ((more : Bytes) × (rest ≡ some more))

fourth-hash :
    (last : Bool) (d : ℕ) (rest : Option Bytes) (u v w : ℕ) {blob : Bytes}
    → fourth last d rest u v w ≡ some blob
    → (d ≢ b'#') × Behind last rest
unfolding fourth
fourth-hash last d rest u v w h = elim (Bool-cases (last && (d == b'='))) [
  | inl e ↦ let (l, p) = and_split last (d == b'=') e in (pad-hash d p, inl l)
  | inr e ↦
      let (x, hd, h₁) = bind-eq-some (digit_value d) _ (rw e at h) in
      let (more, hr, _) = bind-eq-some rest _ h₁ in (digit_value-hash d hd, inr (more, hr))
]

third-hash :
    (last : Bool) (c d : ℕ) (rest : Option Bytes) (u v : ℕ) {blob : Bytes}
    → third last c d rest u v ≡ some blob
    → (c ≢ b'#') × (d ≢ b'#') × Behind last rest
unfolding third
third-hash last c d rest u v h = elim (Bool-cases (last && (c == b'=') && (d == b'='))) [
  | inl e ↦
      let (lc, q) = and_split (last && (c == b'=')) (d == b'=') e in
      let (l, p) = and_split last (c == b'=') lc in (pad-hash c p, pad-hash d q, inl l)
  | inr e ↦
      let (w, hc, h₁) = bind-eq-some (digit_value c) _ (rw e at h) in
      let (fd, behind) = fourth-hash last d rest u v w h₁ in (digit_value-hash c hc, fd, behind)
]

decode_groups-Free : (s : Bytes) {blob : Bytes} → decode_groups s ≡ some blob → Free b'#' s
unfolding decode_groups
decode_groups-Free [] h = tt
decode_groups-Free (a ∷ b ∷ c ∷ d ∷ []) h =
    let (u, ha, h₁) = bind-eq-some (digit_value a) _ h in
    let (v, hb, h₂) = bind-eq-some (digit_value b) _ h₁ in
    let (fc, fd, _) = third-hash true c d (some []) u v h₂ in
    (digit_value-hash a ha, (digit_value-hash b hb, (fc, (fd, tt))))
decode_groups-Free (a ∷ b ∷ c ∷ d ∷ e ∷ s) h =
    let (u, ha, h₁) = bind-eq-some (digit_value a) _ h in
    let (v, hb, h₂) = bind-eq-some (digit_value b) _ h₁ in
    let (fc, fd, behind) = third-hash false c d (decode_groups (e ∷ s)) u v h₂ in
    let (more, hs) : (more : Bytes) × (decode_groups (e ∷ s) ≡ some more) = elim behind [
      | inl wrong ↦ cc
      | inr found ↦ found
    ] in
    (digit_value-hash a ha, (digit_value-hash b hb, (fc, (fd, decode_groups-Free (e ∷ s) hs))))
decode_groups-Free _ h = cc

skip_lines-Free : (s : Bytes) → Free b'#' (skip_lines s) → Free b'#' s
unfolding skip_lines
skip_lines-Free [] h = tt
skip_lines-Free (c ∷ s) h = elim (Bool-cases ((c == b'\n') || (c == b'\r'))) [
  | inl e ↦ ((λ p. ground arith), skip_lines-Free s (rw e at h))
  | inr e ↦ let h' : Free b'#' (c ∷ skip_lines s) = rw e at h in (h'.0, skip_lines-Free s h'.1)
]

pub base64_decode-Free : (s : Bytes) {blob : Bytes} → base64_decode s ≡ some blob → Free b'#' s
unfolding base64_decode
base64_decode-Free s h = skip_lines-Free s (decode_groups-Free (skip_lines s) h)
