-- ===== src/Header/Bits.antt =====
-- The two nibbles of an octet, and the signed octets that `pack` writes.
use Prim.Native.Nat.{bit_or}
use ptp_client.Prelude.{
  ℕ, zero, suc, ◌+◌, ◌*◌, ◌/◌, ◌%◌, ◌^◌, ◌<◌, ◌≡◌, refl, ap, sym, ◌∙◌, Bool, true, ◌&&◌, arith, ℤ,
  pos, negsuc, ◌≤ℤ◌, ◌<ℤ◌, ◌==◌, mask, mask-lt, mask_uint, ◌-ℤ◌, ◌+ℤ◌,
}
use ptp_client.Wire.Laws.{FitsInt}
use ptp_client.Header.{nibbles, wrap_octet}

nibbles_agree : ℕ → Bool
nibbles_agree zero = true
nibbles_agree (suc n) = bit_or (n / 16 * 2 ^ 4) (n % 16) == n && nibbles_agree n

nibbles_agree_at :
    (n : ℕ) → nibbles_agree n ≡ true → (x : ℕ) → x < n → bit_or (x / 16 * 2 ^ 4) (x % 16) ≡ x
unfolding nibbles_agree
nibbles_agree_at zero h x l = absurd (omega arith)
nibbles_agree_at (suc n) h x l = ground (arith, nibbles_agree_at n (ground arith) x)

-- Every octet, checked by evaluation.
octet_nibbles : (x : ℕ) → x < 256 → bit_or (x / 16 * 2 ^ 4) (x % 16) ≡ x
unfolding nibbles_agree
octet_nibbles = nibbles_agree_at 256 refl

join : (a b : ℕ) → a < 16 → b < 16 → bit_or (a * 2 ^ 4) b ≡ a * 16 + b
join a b ha hb =
    sym (ap (λ (q : ℕ). bit_or (q * 2 ^ 4) b) (quotient))
    ∙ sym (ap (bit_or ((a * 16 + b) / 16 * 2 ^ 4)) remainder)
    ∙ octet_nibbles (a * 16 + b) (omega arith)
  where
    quotient : (a * 16 + b) / 16 ≡ a
    quotient = omega arith

    remainder : (a * 16 + b) % 16 ≡ b
    remainder = omega arith

pub nibbles_sum : (high low : ℤ) → nibbles high low ≡ mask 4 high * 16 + mask 4 low
unfolding nibbles
nibbles_sum high low = join (mask 4 high) (mask 4 low) (mask-lt 4 high) (mask-lt 4 low)

pub nibbles-lt : (high low : ℤ) → nibbles high low < 256
nibbles-lt high low = omega (arith, nibbles_sum high low, mask-lt 4 high, mask-lt 4 low)

pub high_nibble : (high low : ℤ) → nibbles high low / 2 ^ 4 % 2 ^ 4 ≡ mask 4 high
high_nibble high low = omega (arith, nibbles_sum high low, mask-lt 4 high, mask-lt 4 low)

pub low_nibble : (high low : ℤ) → nibbles high low % 2 ^ 4 ≡ mask 4 low
low_nibble high low = omega (arith, nibbles_sum high low, mask-lt 4 high, mask-lt 4 low)

pub mask_fits : (k : ℕ) (z : ℤ) → pos 0 ≤ℤ z → z <ℤ pos (2 ^ k) → pos (mask k z) ≡ z
mask_fits k (pos n) h l = ap pos (mask_uint k n (omega arith))
mask_fits k (negsuc n) h l = absurd (omega arith)

-- The control octet goes out signed and comes back masked.
pub control_back :
    (z : ℤ)
    → pos 0 ≤ℤ z
    → z <ℤ pos 256
    → FitsInt 1 (wrap_octet z) × (pos (mask 8 (wrap_octet z)) ≡ z)
unfolding wrap_octet mask ◌-ℤ◌ ◌+ℤ◌
control_back z h l = ground arith

pub interval_back : (z : ℤ) → FitsInt 1 z → wrap_octet z ≡ z
unfolding wrap_octet ◌-ℤ◌ ◌+ℤ◌
interval_back z h = ground arith
