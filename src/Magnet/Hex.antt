-- ===== src/Magnet/Hex.antt =====
-- crates/core/src/lib.rs: `to_hex`, which prints an `InfoHash`. crates/core/src/magnet.rs: `parse_hex_digit`
-- and `decode_hex`. `b >> 4` and `b & 0xf` are `b / 16` and `b % 16`.
use torrent_rust_cli.Common.{
  ℕ, zero, suc, ◌+◌, ◌-◌, ◌*◌, ◌/◌, ◌%◌, ◌<◌, ◌≡◌, ◌≢◌, ◌⊎◌, ap, ◌∙◌, refl, Bool, true, false, ◌&&◌,
  ◌||◌, [], ◌∷◌, Option, none, some, Bytes, length, get_or, leb, ◌==◌, if◌then◌else◌, arith, All,
  inl, inr, Bool-cases, ==→eq,
}
use mathlib.Core.Option

-- b"0123456789abcdef"
abbrev pub hex_chars : Bytes
hex_chars =
    b'0' ∷ b'1' ∷ b'2' ∷ b'3' ∷ b'4' ∷ b'5' ∷ b'6' ∷ b'7' ∷ b'8' ∷ b'9' ∷ b'a' ∷ b'b' ∷ b'c' ∷ b'd'
    ∷ b'e' ∷ b'f' ∷ []

unfoldable pub to_hex : Bytes → Bytes
to_hex [] = []
to_hex (b ∷ bs) = get_or hex_chars (b / 16) 0 ∷ get_or hex_chars (b % 16) 0 ∷ to_hex bs

unfoldable pub parse_hex_digit : ℕ → ℕ
parse_hex_digit c =
    if leb b'0' c && leb c b'9'
    then c - b'0'
    else if leb b'a' c && leb c b'f'
    then c - b'a' + 10
    else if leb b'A' c && leb c b'F'
    then c - b'A' + 10
    else 255

-- `(high << 4) | low` on a byte: the low half of the first is empty.
abbrev pub join_digits : ℕ → ℕ → ℕ
join_digits high low = high * 16 % 256 + low

-- The chunks of two, each of which is a byte; `none` is the answer false.
unfoldable pub hex_pairs : Bytes → Option Bytes
hex_pairs [] = some []
hex_pairs (a ∷ []) = none
hex_pairs (a ∷ b ∷ rest) =
    let out =
      Option.map (λ t. join_digits (parse_hex_digit a) (parse_hex_digit b) ∷ t) (hex_pairs rest) in
    if parse_hex_digit a == 255 || parse_hex_digit b == 255 then none else out

-- `out` has room for `size` bytes; the text must have two digits for each.
unfoldable pub decode_hex : ℕ → Bytes → Option Bytes
decode_hex size s = if length s % 2 == 0 && length s / 2 == size then hex_pairs s else none

abbrev pub IsByte : ℕ → Type 0
IsByte b = b < 256

digit_table : (f : ℕ → Bool) → ℕ → Bool
digit_table f zero = true
digit_table f (suc n) = f n && digit_table f n

digit_table_sound : (f : ℕ → Bool) (n i : ℕ) → digit_table f n ≡ true → i < n → f i ≡ true
unfolding digit_table
digit_table_sound f zero i h l = absurd (omega arith)
digit_table_sound f (suc n) i h l = ground (arith, digit_table_sound f n i)

-- Each digit that `to_hex` prints stands for its number.
pub parse_hex_digit-hex_chars : (n : ℕ) → n < 16 → parse_hex_digit (get_or hex_chars n 0) ≡ n
unfolding parse_hex_digit digit_table
parse_hex_digit-hex_chars n h =
    ==→eq _ n (digit_table_sound (λ n. parse_hex_digit (get_or hex_chars n 0) == n) 16 n refl h)

-- b"0123456789ABCDEF"
abbrev pub upper_chars : Bytes
upper_chars =
    b'0' ∷ b'1' ∷ b'2' ∷ b'3' ∷ b'4' ∷ b'5' ∷ b'6' ∷ b'7' ∷ b'8' ∷ b'9' ∷ b'A' ∷ b'B' ∷ b'C' ∷ b'D'
    ∷ b'E' ∷ b'F' ∷ []

pub parse_hex_digit-upper_chars : (n : ℕ) → n < 16 → parse_hex_digit (get_or upper_chars n 0) ≡ n
unfolding parse_hex_digit digit_table
parse_hex_digit-upper_chars n h =
    ==→eq _ n (digit_table_sound (λ n. parse_hex_digit (get_or upper_chars n 0) == n) 16 n refl h)

-- A digit for a number, in either case.
abbrev pub IsDigit : ℕ → ℕ → Type 0
IsDigit c n = (c ≡ get_or hex_chars n 0) ⊎ (c ≡ get_or upper_chars n 0)

-- Two digits for each byte, each of them in either case.
unfoldable pub IsHexOf : Bytes → Bytes → Type 0
IsHexOf [] [] = Unit
IsHexOf (b ∷ bs) (x ∷ y ∷ s) = IsByte b × IsDigit x (b / 16) × IsDigit y (b % 16) × IsHexOf bs s
IsHexOf bs s = ⊥

parse_hex_digit-IsDigit : (c n : ℕ) → n < 16 → IsDigit c n → parse_hex_digit c ≡ n
parse_hex_digit-IsDigit c n l (inl e) = ap parse_hex_digit e ∙ parse_hex_digit-hex_chars n l
parse_hex_digit-IsDigit c n l (inr e) = ap parse_hex_digit e ∙ parse_hex_digit-upper_chars n l

hex_pairs_pair :
    (x y high low : ℕ) (s bs : Bytes)
    → parse_hex_digit x ≡ high
    → parse_hex_digit y ≡ low
    → high < 16
    → low < 16
    → hex_pairs s ≡ some bs
    → hex_pairs (x ∷ y ∷ s) ≡ some (join_digits high low ∷ bs)
unfolding hex_pairs
hex_pairs_pair x y high low s bs e f h l r =
    let known_high : (high == 255) ≡ false = ground (arith, h) in
    let known_low : (low == 255) ≡ false = ground (arith, l) in
    rw (e, f, known_high, known_low, r) refl

hex_pairs-IsHexOf : (bs s : Bytes) → IsHexOf bs s → hex_pairs s ≡ some bs
unfolding IsHexOf hex_pairs
hex_pairs-IsHexOf [] [] h = refl
hex_pairs-IsHexOf [] (x ∷ s) h = absurd h
hex_pairs-IsHexOf (b ∷ bs) [] h = absurd h
hex_pairs-IsHexOf (b ∷ bs) (x ∷ []) h = absurd h
hex_pairs-IsHexOf (b ∷ bs) (x ∷ y ∷ s) (l, dx, dy, rest) =
    let high = parse_hex_digit-IsDigit x (b / 16) (omega (arith, l)) dx in
    let low = parse_hex_digit-IsDigit y (b % 16) (omega arith) dy in
    let joined : join_digits (b / 16) (b % 16) ≡ b = omega (arith, l) in
    hex_pairs_pair x y (b / 16) (b % 16) s bs high low (omega (arith, l)) (omega arith)
      (hex_pairs-IsHexOf bs s rest)
    ∙ ap (λ k. some (k ∷ bs)) joined

length-IsHexOf : (bs s : Bytes) → IsHexOf bs s → length s ≡ 2 * length bs
unfolding IsHexOf
length-IsHexOf [] [] h = omega arith
length-IsHexOf [] (x ∷ s) h = absurd h
length-IsHexOf (b ∷ bs) [] h = absurd h
length-IsHexOf (b ∷ bs) (x ∷ []) h = absurd h
length-IsHexOf (b ∷ bs) (x ∷ y ∷ s) (l, dx, dy, rest) = omega (arith, length-IsHexOf bs s rest)

-- Digits in either case read back.
pub decode_hex-IsHexOf : (bs s : Bytes) → IsHexOf bs s → decode_hex (length bs) s ≡ some bs
unfolding decode_hex
decode_hex-IsHexOf bs s h = ground (arith, length-IsHexOf bs s h, hex_pairs-IsHexOf bs s h)

pub hex_pairs-to_hex : (bs : Bytes) → All IsByte bs → hex_pairs (to_hex bs) ≡ some bs
unfolding hex_pairs to_hex
hex_pairs-to_hex [] h = refl
hex_pairs-to_hex (b ∷ bs) h = ground (
  arith,
  parse_hex_digit-hex_chars (b / 16),
  parse_hex_digit-hex_chars (b % 16),
  hex_pairs-to_hex bs h.1,
)

pub length-to_hex : (bs : Bytes) → length (to_hex bs) ≡ 2 * length bs
unfolding to_hex
length-to_hex [] = omega arith
length-to_hex (b ∷ bs) = omega (arith, length-to_hex bs)

-- The printed form of any bytes reads back, into an array of their number.
pub decode_hex-to_hex : (bs : Bytes) → All IsByte bs → decode_hex (length bs) (to_hex bs) ≡ some bs
unfolding decode_hex
decode_hex-to_hex bs h = ground (arith, length-to_hex bs, hex_pairs-to_hex bs h)

or_false : (a b : Bool) → (a || b) ≡ false → (a ≡ false) × (b ≡ false)
or_false a b h = ground arith

length-hex_pairs : (s bs : Bytes) → hex_pairs s ≡ some bs → length s ≡ 2 * length bs
unfolding hex_pairs
length-hex_pairs [] [] e = omega arith
length-hex_pairs [] (x ∷ bs) e = cc
length-hex_pairs (a ∷ []) bs e = cc
length-hex_pairs (a ∷ b ∷ rest) [] e = ground arith
length-hex_pairs (a ∷ b ∷ rest) (x ∷ bs) e = ground (arith, length-hex_pairs rest bs)

-- What is read has the size of the array.
pub length-decode_hex : (size : ℕ) (s bs : Bytes) → decode_hex size s ≡ some bs → length bs ≡ size
unfolding decode_hex
length-decode_hex size s bs e = ground (arith, length-hex_pairs s bs)

parse_hex_digit_clean : (c : ℕ) → (parse_hex_digit c == 255) ≡ false → c ≢ b'&'
unfolding parse_hex_digit
parse_hex_digit_clean c h e = cc (rw e at h)

-- A pair is read only if both of its digits are, and the rest is.
hex_pairs_rest :
    (a b : ℕ) (rest bs : Bytes)
    → hex_pairs (a ∷ b ∷ rest) ≡ some bs
    → (a ≢ b'&') × (b ≢ b'&') × (t : Bytes) × (hex_pairs rest ≡ some t)
unfolding hex_pairs
hex_pairs_rest a b rest bs e = split (hex_pairs rest) refl
  where
    digits : (parse_hex_digit a == 255 || parse_hex_digit b == 255) ≡ false
    digits = elim (Bool-cases (parse_hex_digit a == 255 || parse_hex_digit b == 255)) [
      | inl h ↦ cc (rw h at e)
      | inr h ↦ h
    ]

    split :
        (o : Option Bytes)
        → hex_pairs rest ≡ o
        → (a ≢ b'&') × (b ≢ b'&') × (t : Bytes) × (hex_pairs rest ≡ some t)
    split none p = cc (rw (digits, p) at e)
    split (some t) p = (
      parse_hex_digit_clean a (or_false _ _ digits).0,
      parse_hex_digit_clean b (or_false _ _ digits).1,
      t,
      p,
    )

hex_pairs_clean : (s bs : Bytes) → hex_pairs s ≡ some bs → All (λ c. c ≢ b'&') s
hex_pairs_clean [] bs e = tt
hex_pairs_clean (a ∷ []) bs e = absurd (unfold hex_pairs in cc)
hex_pairs_clean (a ∷ b ∷ rest) bs e =
    let (p, q, t, r) = hex_pairs_rest a b rest bs e in (p, (q, hex_pairs_clean rest t r))

-- A text that is read has two digits for each byte, and no `&`.
pub decode_hex_text :
    (size : ℕ) (s bs : Bytes)
    → decode_hex size s ≡ some bs
    → (length s ≡ 2 * size) × All (λ c. c ≢ b'&') s
unfolding decode_hex
decode_hex_text size s bs e = (ground arith, hex_pairs_clean s bs (ground arith))
