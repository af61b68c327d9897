-- ===== src/Timestamp/Laws.antt =====
-- The timestamp codec: what is packed reads back, and nothing out of range is ever read.
use ptp_client.Prelude.{
  ℕ, ◌+◌, ◌≡◌, refl, ◌++◌, arith, ℤ, pos, leb, length, ok, value_error, room, check, returned,
  drop-append,
}
use ptp_client.Wire.{Bytes, from_be, unpack_uint, slice}
use ptp_client.Wire.Laws.{from_be-mask, unpack_uint-past}
use ptp_client.Timestamp.{PtpTimestamp, make, pack10, unpack10, IsValid}

pub make_ok : (t : PtpTimestamp) → IsValid t → make t.seconds t.nanoseconds ≡ ok t
unfolding make
make_ok t v = ground arith

pub make-IsValid : (s n : ℤ) (t : PtpTimestamp) → make s n ≡ ok t → IsValid t
unfolding make
make-IsValid s n t h = ground arith

pub length-pack10 : (t : PtpTimestamp) → length (pack10 t) ≡ 10
unfolding pack10
length-pack10 t = refl

-- A timestamp that is in range reads back from wherever it was written.
pub unpack10-pack10 :
    (pre : Bytes) (t : PtpTimestamp) (rest : Bytes) (offset : ℕ)
    → length pre ≡ offset
    → IsValid t
    → unpack10 (pre ++ (pack10 t ++ rest)) offset ≡ ok t
unfolding unpack10 pack10 unpack_uint
unpack10-pack10 pre t rest offset e v =
    rw
      (
        room pre (pack10 t) rest offset 10 e (omega arith),
        unpack_uint-past 4 pre (pack10 t ++ rest) offset 6 e,
        drop-append pre (pack10 t ++ rest) offset e,
        from_be-mask 6 48 t.seconds refl v.seconds_fit,
        from_be-mask 4 32 t.nanoseconds refl (omega (arith, v.nanoseconds_fit)),
      )
      (make_ok t v)

-- Whatever the octets are, a timestamp that is read is one that the constructor admits.
pub unpack10-IsValid :
    (bs : Bytes) (offset : ℕ) (t : PtpTimestamp) → unpack10 bs offset ≡ ok t → IsValid t
unfolding unpack10
unpack10-IsValid bs offset t h =
    let (_, _, h') = returned (check (leb (offset + 10) (length bs)) value_error) _ h in
    let (ns, _, made) = returned (unpack_uint 4 bs (offset + 6)) _ h' in
    make-IsValid (pos (from_be (slice bs offset 6))) (pos ns) t made
