-- ===== src/Common/Ints.antt =====
-- Signed integers over the native numbers, and the ranges and casts of i64 and u64.
use torrent_rust_cli.Common.{ℕ, ◌-◌, ◌^◌, ◌<◌, ◌≡◌, arith, ltb, if◌then◌else◌}

-- `negsuc n` is -(n + 1).
pub data ℤ : Type 0 where
  pos : ℕ → ℤ
  negsuc : ℕ → ℤ

-- The value lies in the range of i64.
abbrev pub IsI64 : ℤ → Type 0
IsI64 (pos n) = n < 2 ^ 63
IsI64 (negsuc n) = n < 2 ^ 63

-- `x as i64` for x : u64, and `x as u64` for x : i64.
unfoldable pub u64_to_i64 : ℕ → ℤ
u64_to_i64 n = if ltb n (2 ^ 63) then pos n else negsuc (2 ^ 64 - 1 - n)

unfoldable pub i64_to_u64 : ℤ → ℕ
i64_to_u64 (pos n) = n
i64_to_u64 (negsuc n) = 2 ^ 64 - 1 - n

pub i64_to_u64-u64_to_i64 : (n : ℕ) → n < 2 ^ 64 → i64_to_u64 (u64_to_i64 n) ≡ n
unfolding i64_to_u64 u64_to_i64
i64_to_u64-u64_to_i64 n h = ground arith

pub u64_to_i64-IsI64 : (n : ℕ) → n < 2 ^ 64 → IsI64 (u64_to_i64 n)
unfolding u64_to_i64
u64_to_i64-IsI64 n h = ground arith
