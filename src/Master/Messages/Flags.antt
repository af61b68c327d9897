-- ===== src/Master/Messages/Flags.antt =====
-- One bit of the flag field that a builder sets by itself.
use ptp_client.Prelude.{
  ℕ, ◌≡◌, Bool, false, arith, ℤ, pos, negsuc, mask, bit, with_bit, if◌then◌else◌,
}

abbrev pub number : Bool → ℕ
number b = if b then 1 else 0

pub two_step_set : (b : Bool) (z : ℤ) → bit 9 (pos (mask 16 (with_bit 9 b z))) ≡ number b
unfolding bit mask with_bit
two_step_set b (pos n) = ground arith
two_step_set b (negsuc n) = ground arith

pub two_step_keeps :
    (b : Bool) (z : ℤ)
    → with_bit 9 false (pos (mask 16 (with_bit 9 b z))) ≡ with_bit 9 false (pos (mask 16 z))
unfolding bit mask with_bit
two_step_keeps b (pos n) = ground arith
two_step_keeps b (negsuc n) = ground arith

pub unicast_set : (b : Bool) (z : ℤ) → bit 10 (pos (mask 16 (with_bit 10 b z))) ≡ number b
unfolding bit mask with_bit
unicast_set b (pos n) = ground arith
unicast_set b (negsuc n) = ground arith

pub unicast_keeps :
    (b : Bool) (z : ℤ)
    → with_bit 10 false (pos (mask 16 (with_bit 10 b z))) ≡ with_bit 10 false (pos (mask 16 z))
unfolding bit mask with_bit
unicast_keeps b (pos n) = ground arith
unicast_keeps b (negsuc n) = ground arith
