-- ===== src/Signaling/Tlvs.antt =====
-- Walking over TLVs.
use ptp_client.Prelude.{
  ℕ, zero, suc, le→leb, true, ◌^◌, ◌≤◌, ◌<◌, ◌≡◌, refl, ◌++◌, List, [], ◌∷◌, All, arith, leb,
  length, drop, length-drop, length-append, take-append, drop-append,
}
use ptp_client.Wire.{Bytes, be, from_be}
use ptp_client.Wire.Laws.{from_be-be}
use ptp_client.Signaling.{Tlv, iter_tlvs_from}

-- As many steps as there are octets are enough: more fuel gives the same TLVs.
pub iter_fuel :
    (n m : ℕ) (bs : Bytes)
    → length bs ≤ n
    → length bs ≤ m
    → iter_tlvs_from n bs ≡ iter_tlvs_from m bs
unfolding iter_tlvs_from
iter_fuel zero zero bs h k = refl
iter_fuel zero (suc m) [] h k = refl
iter_fuel (suc n) zero [] h k = refl
iter_fuel (suc n) (suc m) (a ∷ b ∷ c ∷ d ∷ rest) h k =
    rw
      (iter_fuel n m (drop (from_be (c ∷ d ∷ [])) rest)
        (omega (arith, length-drop (from_be (c ∷ d ∷ [])) rest))
        (omega (arith, length-drop (from_be (c ∷ d ∷ [])) rest)))
      refl
iter_fuel (suc n) (suc m) [] h k = refl
iter_fuel (suc n) (suc m) (a ∷ []) h k = refl
iter_fuel (suc n) (suc m) (a ∷ b ∷ []) h k = refl
iter_fuel (suc n) (suc m) (a ∷ b ∷ c ∷ []) h k = refl
iter_fuel zero (suc m) (a ∷ bs) h k = absurd (omega arith)
iter_fuel (suc n) zero (a ∷ bs) h k = absurd (omega arith)

-- Type and length fit their 16-bit fields.
abbrev pub TlvFits : Tlv → Type 0
TlvFits t = (t.type_field < 2 ^ 16) × (length t.value < 2 ^ 16)

-- The octets of a sequence of TLVs.
unfoldable pub encode : List Tlv → Bytes
encode [] = []
encode (t ∷ ts) = be 2 t.type_field ++ (be 2 (length t.value) ++ (t.value ++ encode ts))

-- The walk over the octets of a sequence of TLVs yields that sequence, whatever the values are.
pub iter_encode :
    (ts : List Tlv) (n : ℕ)
    → All TlvFits ts
    → length (encode ts) ≤ n
    → iter_tlvs_from n (encode ts) ≡ ts
unfolding iter_tlvs_from encode
iter_encode [] zero fits room = refl
iter_encode [] (suc n) fits room = refl
iter_encode (t ∷ ts) zero fits room = absurd (omega arith)
iter_encode (t ∷ ts) (suc n) (here, there) room =
    let ih = iter_encode ts n there (omega (arith, length-append t.value (encode ts))) in
    let inside : leb (length t.value) (length (t.value ++ encode ts)) ≡ true =
      le→leb (length t.value) (length (t.value ++ encode ts))
        (omega (arith, length-append t.value (encode ts))) in
    rw (from_be-be 2 t.type_field here.0, from_be-be 2 (length t.value) here.1)
      (rw
        (
          drop-append t.value (encode ts) (length t.value) refl,
          take-append t.value (encode ts) (length t.value) refl,
          ih,
          inside,
        )
        refl)
