-- ===== src/Prelude/Int.antt =====
-- Python's integers over the native numbers, under the library's names, with the masks and the
-- single bits that the program takes of them (`z & (2 ** k - 1)`, `z & ~(1 << k) | ...`).
use Prim.Native.Nat.{ℕ, suc, ◌+◌, ◌-◌, ◌*◌, ◌/◌, ◌%◌, ◌^◌, ◌≤◌, ◌<◌}
use mathlib.Core.Path.{◌≡◌}
use mathlib.Core.Bool.{Bool, true, false}
use native.Mathlib.Omega.{arith}
use native.Mathlib.Nat.{mod-eq_of_lt, mod-lt, one-le-pow}
use ptp_client.Prelude.Tests.{ltb, leb, if◌then◌else◌}

-- `negsuc n` is -(n + 1).
pub data ℤ : Type 0 where
  pos : ℕ → ℤ
  negsuc : ℕ → ℤ

abbrev pub pos_part : ℤ → ℕ
pos_part (pos n) = n
pos_part (negsuc n) = 0

abbrev pub neg_part : ℤ → ℕ
neg_part (pos n) = 0
neg_part (negsuc n) = suc n

-- a - b, as an integer.
abbrev pub sub_ℕ : ℕ → ℕ → ℤ
sub_ℕ a b = if leb b a then pos (a - b) else negsuc (b - a - 1)

infixl 65 ◌+ℤ◌ ◌-ℤ◌
infix 50 ◌≤ℤ◌ ◌<ℤ◌
unfoldable pub ◌+ℤ◌ : ℤ → ℤ → ℤ
a +ℤ b = sub_ℕ (pos_part a + pos_part b) (neg_part a + neg_part b)

unfoldable pub ◌-ℤ◌ : ℤ → ℤ → ℤ
a -ℤ b = sub_ℕ (pos_part a + neg_part b) (neg_part a + pos_part b)

abbrev pub ◌≤ℤ◌ : ℤ → ℤ → Type 0
a ≤ℤ b = pos_part a + neg_part b ≤ pos_part b + neg_part a

abbrev pub ◌<ℤ◌ : ℤ → ℤ → Type 0
a <ℤ b = pos_part a + neg_part b < pos_part b + neg_part a

abbrev pub leb_ℤ : ℤ → ℤ → Bool
leb_ℤ a b = leb (pos_part a + neg_part b) (pos_part b + neg_part a)

abbrev pub ltb_ℤ : ℤ → ℤ → Bool
ltb_ℤ a b = ltb (pos_part a + neg_part b) (pos_part b + neg_part a)

abbrev pub min_ℤ : ℤ → ℤ → ℤ
min_ℤ a b = if ltb_ℤ b a then b else a

abbrev pub max_ℤ : ℤ → ℤ → ℤ
max_ℤ a b = if ltb_ℤ a b then b else a

unfoldable pub eq_ℤ : ℤ → ℤ → Bool
eq_ℤ a b = if leb_ℤ a b then leb_ℤ b a else false

pub eq_ℤ→eq : (a b : ℤ) → eq_ℤ a b ≡ true → a ≡ b
unfolding eq_ℤ
eq_ℤ→eq a b h = ground arith

pub eq_ℤ_refl : (z : ℤ) → eq_ℤ z z ≡ true
unfolding eq_ℤ
eq_ℤ_refl z = ground arith

pub +ℤ_parts :
    (a b : ℤ)
    → pos_part (a +ℤ b) + neg_part a + neg_part b ≡ neg_part (a +ℤ b) + pos_part a + pos_part b
unfolding ◌+ℤ◌
+ℤ_parts a b = ground arith

pub -ℤ_parts :
    (a b : ℤ)
    → pos_part (a -ℤ b) + neg_part a + pos_part b ≡ neg_part (a -ℤ b) + pos_part a + neg_part b
unfolding ◌-ℤ◌
-ℤ_parts a b = ground arith

pub eq_of_parts : (a b : ℤ) → pos_part a + neg_part b ≡ pos_part b + neg_part a → a ≡ b
eq_of_parts a b h = ground arith

pub ruleset int_laws = (arith, +ℤ_parts, -ℤ_parts, eq_of_parts)

-- z & (2 ** k - 1): the low `k` bits of the two's complement.
unfoldable pub mask : ℕ → ℤ → ℕ
mask k (pos n) = n % 2 ^ k
mask k (negsuc n) = 2 ^ k - 1 - n % 2 ^ k

-- (z >> k) & 1
unfoldable pub bit : ℕ → ℤ → ℕ
bit k (pos n) = n / 2 ^ k % 2
bit k (negsuc n) = 1 - n / 2 ^ k % 2

-- (z & ~(1 << k)) | ((1 << k) if b else 0)
unfoldable pub with_bit : ℕ → Bool → ℤ → ℤ
unfolding bit ◌+ℤ◌ ◌-ℤ◌
with_bit k b z = z -ℤ pos (bit k z * 2 ^ k) +ℤ pos (if b then 2 ^ k else 0)

pub mask-lt : (k : ℕ) (z : ℤ) → mask k z < 2 ^ k
unfolding mask
mask-lt k (pos n) =
    omega (arith, one-le-pow k 2 (omega arith), mod-lt n (one-le-pow k 2 (omega arith)))
mask-lt k (negsuc n) = omega (arith, one-le-pow k 2 (omega arith))

pub mask_uint : (k n : ℕ) → n < 2 ^ k → mask k (pos n) ≡ n
unfolding mask
mask_uint k n h = mod-eq_of_lt h
