-- ===== src/Wire.antt =====
-- Python's `struct` in big-endian order, as the codecs use it: fixed-width unsigned and signed
-- fields, with `struct.error` for a value out of range or a buffer that is too short.
pub mod Laws
use ptp_client.Prelude.{
  ℕ, zero, suc, ◌+◌, ◌-◌, ◌*◌, ◌/◌, ◌%◌, ◌^◌, ◌<◌, Bool, true, List, [], ◌∷◌, none, some, ℤ, pos,
  negsuc, Result, ok, err, struct_error, ltb, if◌then◌else◌, drop, take?, All,
}

abbrev pub Bytes : Type 0
Bytes = List ℕ

-- What a `bytes` object is: every item is an octet.
abbrev pub IsBytes : Bytes → Type 0
IsBytes bs = All (λ b. b < 256) bs

-- The `k`-th octet of a number, counted from the lowest.
pub octet : ℕ → ℕ → ℕ
octet k n = n / 256 ^ k % 256

-- `n.to_bytes(w, "big")` of a number below 256 ** w.
abbrev pub be : ℕ → ℕ → Bytes
be zero n = []
be (suc w) n = octet w n ∷ be w n

unfoldable pub from_be_acc : ℕ → Bytes → ℕ
from_be_acc acc [] = acc
from_be_acc acc (b ∷ bs) = from_be_acc (acc * 256 + b) bs

-- `int.from_bytes(bs, "big")`
unfoldable pub from_be : Bytes → ℕ
from_be bs = from_be_acc 0 bs

-- The integer that an octet string of width `w` stands for in two's complement.
unfoldable pub signed : ℕ → ℕ → ℤ
signed w n = if ltb n (256 ^ w / 2) then pos n else negsuc (256 ^ w - 1 - n)

-- struct.pack("!B" | "!H" | "!I", z) for w = 1, 2, 4
abbrev pub pack_uint : ℕ → ℤ → Result Bytes
pack_uint w (pos n) = if ltb n (256 ^ w) then ok (be w n) else err struct_error
pack_uint w (negsuc n) = err struct_error

-- struct.pack("!b" | "!q", z) for w = 1, 8
abbrev pub pack_int : ℕ → ℤ → Result Bytes
pack_int w (pos n) = if ltb n (256 ^ w / 2) then ok (be w n) else err struct_error
pack_int w (negsuc n) =
    if ltb n (256 ^ w / 2) then ok (be w (256 ^ w - 1 - n)) else err struct_error

-- struct.unpack_from of one unsigned field of width `w` at `off`
unfoldable pub unpack_uint : ℕ → Bytes → ℕ → Result ℕ
unpack_uint w bs off = elim (take? w (drop off bs)) [
  | none ↦ err struct_error
  | some field ↦ ok (from_be field)
]

-- struct.unpack_from of one signed field
unfoldable pub unpack_int : ℕ → Bytes → ℕ → Result ℤ
unpack_int w bs off = elim (take? w (drop off bs)) [
  | none ↦ err struct_error
  | some field ↦ ok (signed w (from_be field))
]

-- data[off : off + n]
abbrev pub slice : Bytes → ℕ → ℕ → Bytes
slice bs off n = ptp_client.Prelude.take n (drop off bs)
