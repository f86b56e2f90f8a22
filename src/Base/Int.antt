-- ===== src/Base/Int.antt =====
-- Signed integers over the native numbers, and the casts of the language between machine integers.
use Prim.Native.Nat.{ℕ, suc, ◌+◌, ◌-◌, ◌%◌, ◌^◌, ◌≤◌, ◌<◌}
use mathlib.Core.Path.{◌≡◌}
use mathlib.Core.Bool.{Bool}
use native.Mathlib.Omega.{arith}
use solana_indexer_plugin.Base.Branch.{if◌then◌else◌, ltb, ◌==◌}

-- `negsuc n` is -(n + 1).
pub data ℤ : Type 0 where
  pos : ℕ → ℤ
  negsuc : ℕ → ℤ

abbrev pub pos_part : ℤ → ℕ
pos_part (pos n) = n
pos_part (negsuc n) = 0

abbrev pub neg_part : ℤ → ℕ
neg_part (pos n) = 0
neg_part (negsuc n) = suc n

infix 50 ◌<ℤ◌ ◌≤ℤ◌
abbrev pub ◌<ℤ◌ : ℤ → ℤ → Type 0
a <ℤ b = pos_part a + neg_part b < pos_part b + neg_part a

abbrev pub ◌≤ℤ◌ : ℤ → ℤ → Type 0
a ≤ℤ b = pos_part a + neg_part b ≤ pos_part b + neg_part a

abbrev pub ltb_ℤ : ℤ → ℤ → Bool
ltb_ℤ a b = ltb (pos_part a + neg_part b) (pos_part b + neg_part a)

abbrev pub eqb_ℤ : ℤ → ℤ → Bool
eqb_ℤ a b = (pos_part a + neg_part b) == (pos_part b + neg_part a)

abbrev pub u64_mod : ℕ
u64_mod = 2 ^ 64

abbrev pub i64_half : ℕ
i64_half = 2 ^ 63

-- `n as i64` for `n : u64`: two's complement.
unfoldable pub as_i64 : ℕ → ℤ
as_i64 n = if ltb n i64_half then pos n else negsuc (u64_mod - 1 - n)

-- `z as u64` for `z : i64`
unfoldable pub as_u64 : ℤ → ℕ
as_u64 (pos n) = n
as_u64 (negsuc n) = u64_mod - 1 - n

-- A `u64` survives the trip through `i64`.
pub as_u64-as_i64 : (n : ℕ) → n < u64_mod → as_u64 (as_i64 n) ≡ n
unfolding as_i64 as_u64
as_u64-as_i64 n h = ground arith

-- `n as i16` for an unsigned `n` of eight or more bits: the low sixteen bits, two's complement.
unfoldable pub as_i16 : ℕ → ℤ
as_i16 n = let m = n % 65536 in if ltb m 32768 then pos m else negsuc (65535 - m)

-- A `u8` keeps its value.
pub as_i16_of_u8 : (n : ℕ) → n < 256 → as_i16 n ≡ pos n
unfolding as_i16
as_i16_of_u8 n h = ground arith

-- `z as u8`
unfoldable pub as_u8 : ℤ → ℕ
as_u8 (pos n) = n % 256
as_u8 (negsuc n) = 255 - n % 256

-- A `u8` survives the trip through `i16`.
pub as_u8-as_i16 : (n : ℕ) → n < 256 → as_u8 (as_i16 n) ≡ n
unfolding as_i16 as_u8
as_u8-as_i16 n h = ground arith
