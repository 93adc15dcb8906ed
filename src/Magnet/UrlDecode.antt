-- ===== src/Magnet/UrlDecode.antt =====
-- crates/core/src/magnet.rs: `url_decode`.
use torrent_rust_cli.Common.{
  ℕ, ◌/◌, ◌%◌, ◌<◌, ◌≡◌, ◌≢◌, refl, sym, ap, ◌∙◌, arith, All, Bool, true, false, ◌&&◌, leb, get_or,
  ne→==, Bool-cases, inl, inr, ◌||◌, [], ◌∷◌, Option, none, some, Bytes, ◌==◌, if◌then◌else◌, ok,
  err, Outcome,
}
use mathlib.Core.Option
use torrent_rust_cli.Common.Utf8.{is_utf8}
use torrent_rust_cli.Magnet.Hex.{
  parse_hex_digit, join_digits, upper_chars, parse_hex_digit-upper_chars,
}

pub data MagnetError : Type 0 where
  invalid_prefix missing_xt invalid_info_hash invalid_url_encoding : MagnetError

-- The loop, without the check of the result.
unfoldable pub unescape : Bytes → Option Bytes
unescape [] = some []
unescape (b ∷ []) = if b == b'%' then none else some (b ∷ [])
unescape (b ∷ c ∷ []) =
    let plain = Option.map (λ t. b ∷ t) (unescape (c ∷ [])) in if b == b'%' then none else plain
unescape (b ∷ c ∷ d ∷ rest) =
    let escaped =
      Option.map (λ t. join_digits (parse_hex_digit c) (parse_hex_digit d) ∷ t) (unescape rest) in
    let plain = Option.map (λ t. b ∷ t) (unescape (c ∷ d ∷ rest)) in
    if b == b'%'
    then (if parse_hex_digit c == 255 || parse_hex_digit d == 255 then none else escaped)
    else plain

unfoldable pub url_decode : Bytes → Outcome MagnetError Bytes
url_decode s = elim (unescape s) [
  | none ↦ err invalid_url_encoding
  | some out ↦ if is_utf8 out then ok out else err invalid_url_encoding
]

-- The bytes that `byte_serialize` of the crate url leaves as they are: letters, digits and `*-._`.
unfoldable pub is_unreserved : ℕ → Bool
is_unreserved c =
    (leb b'0' c && leb c b'9')
    || (leb b'A' c && leb c b'Z')
    || (leb b'a' c && leb c b'z')
    || c == b'*'
    || c == b'-'
    || c == b'.'
    || c == b'_'

-- What the crate url says of `byte_serialize`, byte by byte.
pub record IsByteSerialize (encode : Bytes → Bytes) : Type 0 where
  pub empty : encode [] ≡ []
  pub keeps : (c : ℕ) (t : Bytes) → is_unreserved c ≡ true → encode (c ∷ t) ≡ c ∷ encode t
  pub space : (t : Bytes) → encode (32 ∷ t) ≡ b'+' ∷ encode t
  pub escapes :
      (c : ℕ) (t : Bytes)
      → is_unreserved c ≡ false
      → c < 256
      → c ≢ 32
      → encode (c ∷ t)
        ≡ b'%' ∷ get_or upper_chars (c / 16) 0 ∷ get_or upper_chars (c % 16) 0 ∷ encode t

-- A text without spaces: `url_decode` does not read the `+` that stands for one.
abbrev pub IsSpaceless : Bytes → Type 0
IsSpaceless t = All (λ c. (c < 256) × (c ≢ 32)) t

unescape_plain :
    (b : ℕ) (s t : Bytes) → b ≢ b'%' → unescape s ≡ some t → unescape (b ∷ s) ≡ some (b ∷ t)
unfolding unescape
unescape_plain b [] t h e = ground (arith, e)
unescape_plain b (c ∷ []) t h e = rw (ne→== b b'%' h, e) refl
unescape_plain b (c ∷ d ∷ s) t h e = rw (ne→== b b'%' h, e) refl

unescape_escaped :
    (c : ℕ) (s t : Bytes)
    → c < 256
    → unescape s ≡ some t
    → unescape (b'%' ∷ get_or upper_chars (c / 16) 0 ∷ get_or upper_chars (c % 16) 0 ∷ s)
      ≡ some (c ∷ t)
unfolding unescape
unescape_escaped c s t l e =
    let high = parse_hex_digit-upper_chars (c / 16) (omega (arith, l)) in
    let low = parse_hex_digit-upper_chars (c % 16) (omega arith) in
    let known_high : (c / 16 == 255) ≡ false = ground (arith, l) in
    let known_low : (c % 16 == 255) ≡ false = ground arith in
    let joined : join_digits (c / 16) (c % 16) ≡ c = omega (arith, l) in
    rw (high, low, known_high, known_low, e) (ap (λ b. some (b ∷ t)) joined)

unreserved-ne-percent : (c : ℕ) → is_unreserved c ≡ true → (c ≢ b'%') × (c ≢ b'&')
unfolding is_unreserved
unreserved-ne-percent c h = (λ e. cc (rw e at h), λ e. cc (rw e at h))

pub unescape-byte_serialize :
    (encode : Bytes → Bytes) (t : Bytes)
    → IsByteSerialize encode
    → IsSpaceless t
    → unescape (encode t) ≡ some t
unescape-byte_serialize encode [] h k = rw (h.empty) (unfold unescape in refl)
unescape-byte_serialize encode (c ∷ t) h k =
    let rest = unescape-byte_serialize encode t h k.1 in
    elim (Bool-cases (is_unreserved c)) [
      | inl e ↦
          rw (h.keeps c t e) (unescape_plain c (encode t) t (unreserved-ne-percent c e).0 rest)
      | inr e ↦ rw (h.escapes c t e k.0.0 k.0.1) (unescape_escaped c (encode t) t k.0.0 rest)
    ]

upper_chars-ne : (n : ℕ) → n < 16 → get_or upper_chars n 0 ≢ b'&'
upper_chars-ne n l e =
    let same = sym (parse_hex_digit-upper_chars n l) ∙ ap parse_hex_digit e in
    absurd (unfold parse_hex_digit in omega (arith, same, l))

pub byte_serialize_clean :
    (encode : Bytes → Bytes) (t : Bytes)
    → IsByteSerialize encode
    → IsSpaceless t
    → All (λ c. c ≢ b'&') (encode t)
byte_serialize_clean encode [] h k = rw (h.empty) tt
byte_serialize_clean encode (c ∷ t) h k =
    let rest = byte_serialize_clean encode t h k.1 in
    elim (Bool-cases (is_unreserved c)) [
      | inl e ↦ rw (h.keeps c t e) ((unreserved-ne-percent c e).1, rest)
      | inr e ↦ rw (h.escapes c t e k.0.0 k.0.1) (
        omega arith,
        (
          upper_chars-ne (c / 16) (omega (arith, k.0.0)),
          (upper_chars-ne (c % 16) (omega arith), rest),
        ),
      )
    ]
