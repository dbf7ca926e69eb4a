-- ===== src/Base/Int.antt =====
-- Go's `int` (64 bits): integers over the native numbers, with the wrap-around of sums and increments.
use Prim.Native.Nat.{ℕ, suc, ◌+◌, ◌-◌, ◌%◌, ◌≤◌, ◌<◌}
use mathlib.Core.Path.{◌≡◌}
use mathlib.Core.Bool.{Bool, false, ◌&&◌}
use native.Mathlib.Omega.{arith}
use mcp_sdk_go.Base.Tests.{ltb, leb, if◌then◌else◌}

-- `negsuc n` is -(n + 1).
pub data ℤ : Type 0 where
  pos : ℕ → ℤ
  negsuc : ℕ → ℤ

abbrev pub pos_part : ℤ → ℕ
pos_part (pos n) = n
pos_part (negsuc n) = 0

abbrev pub neg_part : ℤ → ℕ
neg_part (pos n) = 0
neg_part (negsuc n) = suc n

-- a - b, as an integer.
abbrev pub sub_ℕ : ℕ → ℕ → ℤ
sub_ℕ a b = if leb b a then pos (a - b) else negsuc (b - a - 1)

abbrev pub ltb_ℤ : ℤ → ℤ → Bool
ltb_ℤ a b = ltb (pos_part a + neg_part b) (pos_part b + neg_part a)

abbrev pub leb_ℤ : ℤ → ℤ → Bool
leb_ℤ a b = leb (pos_part a + neg_part b) (pos_part b + neg_part a)

abbrev pub eqb_ℤ : ℤ → ℤ → Bool
eqb_ℤ (pos a) (pos b) = leb a b && leb b a
eqb_ℤ (negsuc a) (negsuc b) = leb a b && leb b a
eqb_ℤ _ _ = false

abbrev pub max_int : ℕ
max_int = 9223372036854775807

-- The 64-bit pattern of an integer, and the integer that a pattern stands for.
abbrev pub bits : ℤ → ℕ
bits (pos n) = n % 18446744073709551616
bits (negsuc n) = 18446744073709551615 - n % 18446744073709551616

abbrev pub signed : ℕ → ℤ
signed u = if leb u max_int then pos u else negsuc (18446744073709551615 - u)

-- a + b as the machine computes it.
abbrev pub add_int : ℤ → ℤ → ℤ
add_int a b = signed (bits (sub_ℕ (pos_part a + pos_part b) (neg_part a + neg_part b)))

-- Within the range a sum is exact.
pub add_int_exact : (m n : ℕ) → m + n ≤ max_int → add_int (pos m) (pos n) ≡ pos (m + n)
add_int_exact m n h = ground arith

-- Past the range the sum of two numbers of the range is negative.
pub add_int_wraps :
    (m n : ℕ)
    → m ≤ max_int
    → n ≤ max_int
    → max_int < m + n
    → add_int (pos m) (pos n) ≡ negsuc (18446744073709551615 - (m + n))
add_int_wraps m n hm hn h = ground arith

-- a - b as the machine computes it.
abbrev pub sub_int : ℤ → ℤ → ℤ
sub_int a b = signed (bits (sub_ℕ (pos_part a + neg_part b) (neg_part a + pos_part b)))

-- Between numbers of the range a difference is exact.
pub sub_int_exact : (m n : ℕ) → n ≤ m → m ≤ max_int → sub_int (pos m) (pos n) ≡ pos (m - n)
sub_int_exact m n h k = ground arith

pub sub_int_below : (m k : ℕ) → m + suc k ≤ max_int → sub_int (pos m) (negsuc k) ≡ pos (m + suc k)
sub_int_below m k h = ground arith

pub sub_int_negative :
    (m n : ℕ) → m < n → n ≤ max_int → sub_int (pos m) (pos n) ≡ negsuc (n - m - 1)
sub_int_negative m n h k = ground arith
