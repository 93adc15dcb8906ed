-- ===== src/Bencode/InfoSlice.antt =====
-- crates/core/src/bencode.rs: `find_info_dict_slice`, which looks for the bytes of the info dictionary
-- of a torrent file. The result is an `Option`; it panics where `decode_inner` does.
use torrent_rust_cli.Common.{
  ℕ, zero, suc, ◌+◌, ◌-◌, ◌^◌, ◌<◌, ◌≡◌, ◌≢◌, refl, ap, [], ◌∷◌, ◌++◌, append_assoc, Bytes, length,
  lengths, arith, Outcome, ok, err, panic, out_of_fuel, ◌==◌, bytes_eq, bytes_eq→eq, bytes_eq_self,
  true, false, Option, none, some, take, take-append, if◌then◌else◌, Bool-cases, inl, inr, ne→==,
}
use mathlib.Core.Option
use torrent_rust_cli.Common.Decimal.{print_nat}
use torrent_rust_cli.Bencode.Value.{
  BencodeError, Bencode, Dict, dict, byte_string, empty, entry, get, IsWellFormed, ValuesWellFormed,
}
use torrent_rust_cli.Bencode.Order.{
  compare_bytes→eq, Ordering-cases, get_eq, get_lt, get_gt, ne_of_lt, ne_of_gt,
}
use torrent_rust_cli.Bencode.Decode.{Decoded, decode_inner, decode, fuel_for}
use torrent_rust_cli.Bencode.Encode.{encode_string, encode, encode_entries}
use torrent_rust_cli.Bencode.RoundTrip.{
  decode_inner-encode, decode-encode, encode_head, length-encode_pos,
}

-- b"4:info"
abbrev pub info_key : Bytes
info_key = b'4' ∷ b':' ∷ b'i' ∷ b'n' ∷ b'f' ∷ b'o' ∷ []

abbrev pub info : Bytes
info = b'i' ∷ b'n' ∷ b'f' ∷ b'o' ∷ []

-- `if decode_inner(…).is_err() { return None; }`
abbrev pub or_none :
    Decoded Bencode
    → (Bencode × ℕ × Bytes → Outcome BencodeError (Option Bytes))
    → Outcome BencodeError (Option Bytes)
or_none (ok x) k = k x
or_none (err e) k = ok none
or_none panic k = panic
or_none out_of_fuel k = out_of_fuel

unfoldable pub info_loop : ℕ → ℕ → Bytes → Outcome BencodeError (Option Bytes)
info_loop zero o bs = out_of_fuel
info_loop (suc f) o [] = ok none
info_loop (suc f) o (b ∷ bs) =
    let round = or_none (decode_inner (fuel_for (b ∷ bs)) o (b ∷ bs)) λ (k, o₁, r₁).
      let is_info = bytes_eq (take (o₁ - o) (b ∷ bs)) info_key in
      or_none (decode_inner (fuel_for r₁) o₁ r₁) λ (v, o₂, r₂).
        let rest = info_loop f o₂ r₂ in if is_info then ok (some (take (o₂ - o₁) r₁)) else rest in
    if b == b'e' then ok none else round

-- Each round takes two bytes at least.
unfoldable pub find_info_dict_slice : Bytes → Outcome BencodeError (Option Bytes)
find_info_dict_slice [] = ok none
find_info_dict_slice (b ∷ bs) = if b == b'd' then info_loop (suc (length bs)) 1 bs else ok none

-- What the loop does where no `e` stands.
abbrev info_round : ℕ → ℕ → Bytes → Outcome BencodeError (Option Bytes)
info_round f o bs = or_none (decode_inner (fuel_for bs) o bs) λ (k, o₁, r₁).
    let is_info = bytes_eq (take (o₁ - o) bs) info_key in
    or_none (decode_inner (fuel_for r₁) o₁ r₁)
      λ (v, o₂, r₂). if is_info then ok (some (take (o₂ - o₁) r₁)) else info_loop f o₂ r₂

info_loop_next :
    (f o c : ℕ) (cs : Bytes) → c ≢ b'e' → info_loop (suc f) o (c ∷ cs) ≡ info_round f o (c ∷ cs)
unfolding info_loop
info_loop_next f o c cs h = rw (ne→== c b'e' h)

info_loop-encode_string :
    (f o : ℕ) (k after : Bytes)
    → info_loop (suc f) o (encode_string k ++ after) ≡ info_round f o (encode_string k ++ after)
info_loop-encode_string f o k after =
    let (c, cs, e, h) = encode_head (byte_string k) in
    let e' : encode_string k ≡ c ∷ cs = unfold encode in e in
    rw e' (info_loop_next f o c (cs ++ after) h)

take_front : (o : ℕ) (xs ys : Bytes) → take (o + length xs - o) (xs ++ ys) ≡ xs
take_front o xs ys = let e : o + length xs - o ≡ length xs = omega arith in rw e (take-append xs ys)

-- One round over an entry that `encode` printed.
info_loop-entry :
    (f o : ℕ) (k : Bytes) (v : Bencode) (left : Bytes)
    → IsWellFormed v
    → o + length (encode_string k) + length (encode v) < 2 ^ 64
    → info_loop (suc f) o (encode_string k ++ (encode v ++ left)) ≡ (
        if bytes_eq (encode_string k) info_key
        then ok (some (encode v))
        else info_loop f (o + length (encode_string k) + length (encode v)) left)
info_loop-entry f o k v left w h =
    let o₁ = o + length (encode_string k) in
    let after = encode v ++ left in
    let key : decode_inner (fuel_for (encode_string k ++ after)) o (encode_string k ++ after)
        ≡ ok (byte_string k, o₁, after) =
      unfold encode in
      decode_inner-encode (byte_string k) (fuel_for (encode_string k ++ after)) o after tt
        (omega lengths) (omega arith) in
    let value = decode_inner-encode v (fuel_for after) o₁ left w (omega lengths) h in
    rw (
      info_loop-encode_string f o k after,
      key,
      value,
      take_front o (encode_string k) after,
      take_front o₁ (encode v) left,
    )

encode_string_info : encode_string info ≡ info_key
unfolding encode_string print_nat
encode_string_info = refl

is_info_key : (k : Bytes) → info ≡ k → bytes_eq (encode_string k) info_key ≡ true
is_info_key k e = rw (← e, encode_string_info) (bytes_eq_self info_key)

is_not_info_key : (k : Bytes) → info ≢ k → bytes_eq (encode_string k) info_key ≡ false
is_not_info_key k h = elim (Bool-cases (bytes_eq (encode_string k) info_key)) [
  | inl e ↦ absurd (h (same (bytes_eq→eq _ _ e)))
  | inr e ↦ e
]
  where
    decoded :
        (j : Bytes)
        → length (encode_string j) < 2 ^ 64
        → decode (encode_string j) ≡ ok (byte_string j)
    decoded j l = unfold encode in decode-encode (byte_string j) tt l

    same : encode_string k ≡ info_key → info ≡ k
    same e = cc (
      decoded k (omega (arith, ap length e)),
      decoded info (omega (arith, ap length encode_string_info)),
      encode_string_info,
      e,
    )

info_loop-encode :
    (d : Dict) (f o : ℕ)
    → ValuesWellFormed d
    → length (encode_entries d) < f
    → o + length (encode_entries d) + 1 < 2 ^ 64
    → info_loop f o (encode_entries d ++ (b'e' ∷ [])) ≡ ok (Option.map encode (get info d))
unfolding encode
info_loop-encode d zero o w l h = absurd (omega arith)
info_loop-encode empty (suc f) o w l h = unfold info_loop get in refl
info_loop-encode (entry k v d) (suc f) o w l h =
    let after = encode_entries d ++ (b'e' ∷ []) in
    let o₂ = o + length (encode_string k) + length (encode v) in
    let rest : info_loop f o₂ after ≡ ok (Option.map encode (get info d)) =
      info_loop-encode d f o₂ w.1 (omega (lengths, length-encode_pos v)) (omega lengths) in
    rw
      (
        append_assoc (encode_string k) (encode v ++ encode_entries d) (b'e' ∷ []),
        append_assoc (encode v) (encode_entries d) (b'e' ∷ []),
        info_loop-entry f o k v after w.0 (omega lengths),
      )
      (elim (Ordering-cases info k) [
        | inl e ↦ rw (is_not_info_key k (ne_of_lt info k e), get_lt info k v d e) rest
        | inr (inl e) ↦ rw (is_info_key k (compare_bytes→eq info k e), get_eq info k v d e)
        | inr (inr e) ↦ rw (is_not_info_key k (ne_of_gt info k e), get_gt info k v d e) rest
      ])

-- In the print of a well-formed dictionary `find_info_dict_slice` finds exactly the print of the value
-- under `info`, and nothing where there is no such key.
pub find_info_dict_slice-encode :
    (d : Dict)
    → IsWellFormed (dict d)
    → length (encode (dict d)) < 2 ^ 64
    → find_info_dict_slice (encode (dict d)) ≡ ok (Option.map encode (get info d))
unfolding find_info_dict_slice encode
find_info_dict_slice-encode d w h =
    info_loop-encode d (suc (length (encode_entries d ++ (b'e' ∷ [])))) 1 w.1 (omega lengths)
      (omega lengths)
