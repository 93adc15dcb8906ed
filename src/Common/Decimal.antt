-- ===== src/Common/Decimal.antt =====
-- Decimal text as the standard library prints and parses it: `to_string` of usize and i64, and
-- `str::parse` into usize and i64.
use torrent_rust_cli.Common.{
  ℕ, zero, suc, ◌+◌, ◌-◌, ◌*◌, ◌/◌, ◌%◌, ◌^◌, ◌≤◌, ◌<◌, ◌≡◌, refl, ap, ◌∙◌, Bool, ◌&&◌, [], ◌∷◌,
  ◌++◌, Option, none, some, arith, ltb, leb, ◌==◌, if◌then◌else◌, Bytes, length, All, All-append,
  Bool-cases, lengths, inl, inr,
}
use torrent_rust_cli.Common.Ints.{ℤ, pos, negsuc, IsI64}
use mathlib.Core.Option

-- `is_ascii_digit`
unfoldable pub is_digit : ℕ → Bool
is_digit c = leb b'0' c && leb c b'9'

abbrev pub IsDigit : ℕ → Type 0
IsDigit c = (48 ≤ c) × (c < 58)

print_digits : ℕ → ℕ → Bytes
print_digits zero n = []
print_digits (suc f) n =
    let front = print_digits f (n / 10) in
    if ltb n 10 then (n + 48) ∷ [] else front ++ ((n % 10 + 48) ∷ [])

-- A number below 10 ^ f takes at most f digits; n + 1 is always enough.
unfoldable pub print_nat : ℕ → Bytes
unfolding print_digits
print_nat n = print_digits (suc n) n

unfoldable pub print_int : ℤ → Bytes
print_int (pos n) = print_nat n
print_int (negsuc n) = b'-' ∷ print_nat (suc n)

unfoldable pub parse_digits : ℕ → Bytes → Option ℕ
unfolding is_digit
parse_digits acc [] = some acc
parse_digits acc (c ∷ cs) =
    let rest = parse_digits (acc * 10 + (c - 48)) cs in if is_digit c then rest else none

-- One digit at least.
unfoldable pub parse_nat : Bytes → Option ℕ
unfolding parse_digits
parse_nat [] = none
parse_nat (c ∷ cs) = parse_digits 0 (c ∷ cs)

below : ℕ → Option ℕ → Option ℕ
below bound none = none
below bound (some n) = if ltb n bound then some n else none

negated : Option ℕ → Option ℤ
negated none = none
negated (some zero) = some (pos 0)
negated (some (suc n)) = some (negsuc n)

-- A leading `+` is taken; on overflow the parse fails.
unfoldable pub parse_usize : Bytes → Option ℕ
unfolding below
parse_usize [] = none
parse_usize (c ∷ cs) = below (2 ^ 64) (if c == b'+' then parse_nat cs else parse_nat (c ∷ cs))

unfoldable pub parse_u16 : Bytes → Option ℕ
unfolding below
parse_u16 [] = none
parse_u16 (c ∷ cs) = below (2 ^ 16) (if c == b'+' then parse_nat cs else parse_nat (c ∷ cs))

unfoldable pub parse_i64 : Bytes → Option ℤ
unfolding below negated
parse_i64 [] = none
parse_i64 (c ∷ cs) =
    if c == b'-'
    then negated (below (2 ^ 63 + 1) (parse_nat cs))
    else Option.map pos (below (2 ^ 63) (if c == b'+' then parse_nat cs else parse_nat (c ∷ cs)))

print_digits-IsDigit : (f n : ℕ) → All IsDigit (print_digits f n)
unfolding print_digits
print_digits-IsDigit zero n = tt
print_digits-IsDigit (suc f) n = elim (Bool-cases (ltb n 10)) [
  | inl e ↦ rw e (ground arith)
  | inr e ↦ rw e (All-append IsDigit _ _ (print_digits-IsDigit f (n / 10)) (omega arith))
]

pub print_nat-IsDigit : (n : ℕ) → All IsDigit (print_nat n)
unfolding print_nat
print_nat-IsDigit n = print_digits-IsDigit (suc n) n

length-print_digits : (f n : ℕ) → 0 < length (print_digits (suc f) n)
unfolding print_digits
length-print_digits f n = elim (Bool-cases (ltb n 10)) [
  | inl e ↦ rw e (omega arith)
  | inr e ↦ rw e (omega lengths)
]

digits_head :
    (xs : Bytes)
    → All IsDigit xs
    → 0 < length xs
    → (c : ℕ) × (cs : Bytes) × (xs ≡ c ∷ cs) × IsDigit c
digits_head [] h l = absurd (omega arith)
digits_head (c ∷ cs) h l = (c, cs, refl, h.0)

-- A print is not empty, and begins with a digit.
pub print_nat_head : (n : ℕ) → (c : ℕ) × (cs : Bytes) × (print_nat n ≡ c ∷ cs) × IsDigit c
unfolding print_nat
print_nat_head n =
    digits_head (print_nat n) (print_digits-IsDigit (suc n) n) (length-print_digits n n)

parse_digits-append :
    (xs : Bytes) (acc d r : ℕ)
    → IsDigit d
    → parse_digits acc xs ≡ some r
    → parse_digits acc (xs ++ (d ∷ [])) ≡ some (r * 10 + (d - 48))
unfolding parse_digits is_digit
parse_digits-append [] acc d r h e = ground arith
parse_digits-append (x ∷ xs) acc d r h e =
    ground (arith, parse_digits-append xs (acc * 10 + (x - 48)) d r)

parse_digits-print_digits : (f n : ℕ) → n < f → parse_digits 0 (print_digits f n) ≡ some n
unfolding parse_digits print_digits is_digit
parse_digits-print_digits zero n h = absurd (omega arith)
parse_digits-print_digits (suc f) n h = elim (Bool-cases (ltb n 10)) [
  | inl e ↦ rw e (ground arith)
  | inr e ↦ rw e (
      parse_digits-append (print_digits f (n / 10)) 0 (n % 10 + 48) (n / 10) (omega arith)
        (parse_digits-print_digits f (n / 10) (ground arith))
      ∙ ap some (omega arith))
]

parse_nat-print_nat : (n : ℕ) → parse_nat (print_nat n) ≡ some n
unfolding parse_nat print_nat
parse_nat-print_nat n =
    let (c, cs, e, d) = print_nat_head n in
    let read : parse_digits 0 (print_nat n) ≡ some n =
      parse_digits-print_digits (suc n) n (omega arith) in
    rw e (rw e at read)

parse_usize_of_digit :
    (c : ℕ) (cs : Bytes) (n : ℕ)
    → IsDigit c
    → parse_nat (c ∷ cs) ≡ some n
    → n < 2 ^ 64
    → parse_usize (c ∷ cs) ≡ some n
unfolding parse_usize
parse_usize_of_digit c cs n d e h = ground arith

parse_i64_of_digit :
    (c : ℕ) (cs : Bytes) (n : ℕ)
    → IsDigit c
    → parse_nat (c ∷ cs) ≡ some n
    → n < 2 ^ 63
    → parse_i64 (c ∷ cs) ≡ some (pos n)
unfolding parse_i64
parse_i64_of_digit c cs n d e h = ground arith

-- What `to_string` prints of a usize, `parse` reads back.
pub parse_usize-print_nat : (n : ℕ) → n < 2 ^ 64 → parse_usize (print_nat n) ≡ some n
parse_usize-print_nat n h =
    let (c, cs, e, d) = print_nat_head n in
    rw e (parse_usize_of_digit c cs n d (rw e at (parse_nat-print_nat n)) h)

-- What `to_string` prints of an i64, `parse` reads back.
pub parse_i64-print_int : (i : ℤ) → IsI64 i → parse_i64 (print_int i) ≡ some i
unfolding print_int
parse_i64-print_int (pos n) h =
    let (c, cs, e, d) = print_nat_head n in
    rw e (parse_i64_of_digit c cs n d (rw e at (parse_nat-print_nat n)) h)
parse_i64-print_int (negsuc n) h = unfold parse_i64 in ground (arith, parse_nat-print_nat (suc n))

negated_range : (o : Option ℕ) (i : ℤ) → negated (below (2 ^ 63 + 1) o) ≡ some i → IsI64 i
unfolding negated below
negated_range none i e = cc
negated_range (some zero) (pos n) e = ground arith
negated_range (some zero) (negsuc n) e = ground arith
negated_range (some (suc m)) (pos n) e = ground arith
negated_range (some (suc m)) (negsuc n) e = ground arith

unsigned_range : (o : Option ℕ) (i : ℤ) → Option.map pos (below (2 ^ 63) o) ≡ some i → IsI64 i
unfolding below
unsigned_range none i e = cc
unsigned_range (some m) (pos n) e = ground arith
unsigned_range (some m) (negsuc n) e = ground arith

-- What `parse` returns lies in the range of i64.
pub parse_i64-IsI64 : (text : Bytes) (i : ℤ) → parse_i64 text ≡ some i → IsI64 i
unfolding parse_i64
parse_i64-IsI64 [] i e = cc
parse_i64-IsI64 (c ∷ cs) i e = elim (Bool-cases (c == b'-')) [
  | inl m ↦ negated_range (parse_nat cs) i (rw m at e)
  | inr m ↦ unsigned_range (if c == b'+' then parse_nat cs else parse_nat (c ∷ cs)) i (rw m at e)
]
