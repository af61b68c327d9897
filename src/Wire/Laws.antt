-- ===== src/Wire/Laws.antt =====
-- The laws of `struct`: lengths, octets, and reading back what was written.
use native.Mathlib.Nat.{pow-suc, mod-eq_of_lt, div-add-mod, div-div-eq-div-mul}
use ptp_client.Prelude.{
  ℕ, zero, suc, ◌+◌, ◌-◌, ◌*◌, ◌/◌, ◌%◌, ◌^◌, ◌≤◌, ◌<◌, ◌≡◌, refl, ap, sym, ◌∙◌, arith, [], ◌∷◌,
  ◌++◌, ℤ, pos, negsuc, length, ok, ◌≤ℤ◌, ◌<ℤ◌, ◌+ℤ◌, pos_part, lt→ltb, mask, mask_uint, drop-past,
  take?-append, take?, take, drop, length-drop, err, struct_error, none, some,
}
use ptp_client.Wire.{
  Bytes, IsBytes, octet, be, pack_uint, pack_int, unpack_uint, unpack_int, from_be, from_be_acc,
  signed,
}

pub length-be : (w n : ℕ) → length (be w n) ≡ w
length-be zero n = refl
length-be (suc w) n = ap suc (length-be w n)

pub octet-lt : (k n : ℕ) → octet k n < 256
unfolding octet
octet-lt k n = omega arith

pub be-IsBytes : (w n : ℕ) → IsBytes (be w n)
be-IsBytes zero n = tt
be-IsBytes (suc w) n = (octet-lt w n, be-IsBytes w n)

-- The top octet and the rest of a number of `suc w` octets.
split : (w n : ℕ) → n % 256 ^ suc w ≡ octet w n * 256 ^ w + n % 256 ^ w
unfolding octet
split w n = rw (pow-suc 256 w) (
    omega (
      arith,
      div-add-mod n (256 ^ w),
      div-add-mod n (256 ^ w * 256),
      sym (div-div-eq-div-mul n (256 ^ w) 256),
      ap (λ (q : ℕ). q * 256 ^ w) (div-add-mod (n / 256 ^ w) 256),
      ap (λ (q : ℕ). q * (256 ^ w * 256)) (sym (div-div-eq-div-mul n (256 ^ w) 256)),
    ))

from_be_acc-be : (w acc n : ℕ) → from_be_acc acc (be w n) ≡ acc * 256 ^ w + n % 256 ^ w
unfolding from_be_acc
from_be_acc-be zero acc n = omega arith
from_be_acc-be (suc w) acc n =
    from_be_acc-be w (acc * 256 + octet w n) n
    ∙ omega (arith, split w n, ap (λ (p : ℕ). acc * p) (pow-suc 256 w))

pub from_be-be : (w n : ℕ) → n < 256 ^ w → from_be (be w n) ≡ n
unfolding from_be
from_be-be w n h = omega (arith, from_be_acc-be w 0 n, mod-eq_of_lt h)

abbrev pub FitsUint : ℕ → ℤ → Type 0
FitsUint w z = (pos 0 ≤ℤ z) × (z <ℤ pos (256 ^ w))

abbrev pub FitsInt : ℕ → ℤ → Type 0
FitsInt w z = (pos 0 ≤ℤ z +ℤ pos (256 ^ w / 2)) × (z <ℤ pos (256 ^ w / 2))

-- The two's complement of width `w` of an integer that fits.
pub twos : ℕ → ℤ → ℕ
twos w (pos n) = n
twos w (negsuc n) = 256 ^ w - 1 - n

pub pack_uint_ok : (w : ℕ) (z : ℤ) → FitsUint w z → pack_uint w z ≡ ok (be w (pos_part z))
pack_uint_ok w (pos n) h = rw (lt→ltb n (256 ^ w) (omega arith))
pack_uint_ok w (negsuc n) h = absurd (omega arith)

pub pack_uint_pos : (w n : ℕ) → n < 256 ^ w → pack_uint w (pos n) ≡ ok (be w n)
pack_uint_pos w n h = rw (lt→ltb n (256 ^ w) h)

pub pack_uint_fits : (w : ℕ) (z : ℤ) {bs : Bytes} → pack_uint w z ≡ ok bs → FitsUint w z
pack_uint_fits w (pos n) h = ground arith
pack_uint_fits w (negsuc n) h = cc

pub pack_int_ok : (w : ℕ) (z : ℤ) → FitsInt w z → pack_int w z ≡ ok (be w (twos w z))
unfolding twos ◌+ℤ◌
pack_int_ok w (pos n) h = rw (lt→ltb n (256 ^ w / 2) (omega arith))
pack_int_ok w (negsuc n) h = rw (lt→ltb n (256 ^ w / 2) (ground arith))

pub pack_int_fits : (w : ℕ) (z : ℤ) {bs : Bytes} → pack_int w z ≡ ok bs → FitsInt w z
unfolding ◌+ℤ◌
pack_int_fits w (pos n) h = ground arith
pack_int_fits w (negsuc n) h = ground arith

pub signed-twos : (w : ℕ) (z : ℤ) → FitsInt w z → signed w (from_be (be w (twos w z))) ≡ z
unfolding signed twos ◌+ℤ◌
signed-twos w (pos n) h = rw (from_be-be w n (omega arith), lt→ltb n (256 ^ w / 2) (omega arith))
signed-twos w (negsuc n) h = ground (arith, from_be-be w (256 ^ w - 1 - n))

pub spine8 :
    (P : Bytes → Type 0)
    → ((a b c d e f g h : ℕ) → P (a ∷ b ∷ c ∷ d ∷ e ∷ f ∷ g ∷ h ∷ []))
    → (xs : Bytes) → length xs ≡ 8
    → P xs
spine8 P k (a ∷ b ∷ c ∷ d ∷ e ∷ f ∷ g ∷ h ∷ []) l = k a b c d e f g h
spine8 P k _ l = absurd (omega arith)

-- A field that was masked to its width before it was written reads back if it did fit.
pub from_be-mask :
    (w k : ℕ) (z : ℤ) → 256 ^ w ≡ 2 ^ k → FitsUint w z → pos (from_be (be w (mask k z))) ≡ z
from_be-mask w k (pos n) e h =
    rw (mask_uint k n (omega arith)) (ap pos (from_be-be w n (omega arith)))
from_be-mask w k (negsuc n) e h = absurd (omega arith)

-- Reading behind a prefix, and reading the field that stands first.
pub unpack_uint-past :
    (w : ℕ) (pre bs : Bytes) (n m : ℕ)
    → length pre ≡ n
    → unpack_uint w (pre ++ bs) (n + m) ≡ unpack_uint w bs m
unfolding unpack_uint
unpack_uint-past w pre bs n m e = rw (drop-past pre bs n m e, unpack_uint)

pub unpack_int-past :
    (w : ℕ) (pre bs : Bytes) (n m : ℕ)
    → length pre ≡ n
    → unpack_int w (pre ++ bs) (n + m) ≡ unpack_int w bs m
unfolding unpack_int
unpack_int-past w pre bs n m e = rw (drop-past pre bs n m e, unpack_int)

pub unpack_uint-first :
    (w : ℕ) (field rest : Bytes)
    → length field ≡ w
    → unpack_uint w (field ++ rest) 0 ≡ ok (from_be field)
unfolding unpack_uint
unpack_uint-first w field rest e = rw (take?-append field rest w e, unpack_uint)

-- A field that lies within the buffer is read, and one that does not raises `struct.error`.
take?-short : (w : ℕ) (bs : Bytes) → length bs < w → take? w bs ≡ none
take?-short zero bs h = elim h [ ]
take?-short (suc w) [] h = refl
take?-short (suc w) (b ∷ bs) h = rw (take?-short w bs (omega arith))

take?-long : (w : ℕ) (bs : Bytes) → w ≤ length bs → take? w bs ≡ some (take w bs)
take?-long zero bs h = refl
take?-long (suc w) [] h = absurd (omega arith)
take?-long (suc w) (b ∷ bs) h = rw (take?-long w bs (omega arith))

pub unpack_uint-inside :
    (w : ℕ) (bs : Bytes) (off : ℕ)
    → off + w ≤ length bs
    → unpack_uint w bs off ≡ ok (from_be (take w (drop off bs)))
unfolding unpack_uint
unpack_uint-inside w bs off h =
    rw (take?-long w (drop off bs) (omega (arith, length-drop off bs)), unpack_uint)

pub unpack_int-inside :
    (w : ℕ) (bs : Bytes) (off : ℕ)
    → off + w ≤ length bs
    → unpack_int w bs off ≡ ok (signed w (from_be (take w (drop off bs))))
unfolding unpack_int
unpack_int-inside w bs off h =
    rw (take?-long w (drop off bs) (omega (arith, length-drop off bs)), unpack_int)

pub unpack_uint-outside :
    (w : ℕ) (bs : Bytes) (off : ℕ)
    → 0 < w
    → length bs < off + w
    → unpack_uint w bs off ≡ err struct_error
unfolding unpack_uint
unpack_uint-outside w bs off p h =
    rw (take?-short w (drop off bs) (omega (arith, length-drop off bs)), unpack_uint)

pub All-drop : (n : ℕ) (bs : Bytes) → IsBytes bs → IsBytes (drop n bs)
All-drop zero bs v = v
All-drop (suc n) [] v = v
All-drop (suc n) (b ∷ bs) (_, v) = All-drop n bs v

pub two_octets : (bs : Bytes) → IsBytes bs → from_be (take 2 bs) < 2 ^ 16
unfolding from_be from_be_acc
two_octets [] v = omega arith
two_octets (a ∷ []) v = omega arith
two_octets (a ∷ b ∷ rest) v = omega arith

-- Two octets of a number, as a word.
pub word_lt : (j k n : ℕ) → from_be (octet j n ∷ octet k n ∷ []) < 2 ^ 16
word_lt j k n = two_octets (octet j n ∷ octet k n ∷ []) (octet-lt j n, (octet-lt k n, tt))
