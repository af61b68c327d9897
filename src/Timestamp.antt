-- ===== src/Timestamp.antt =====
-- src/ptp_client/ptp/timestamp.py: a 48-bit count of seconds and 32 bits of nanoseconds.
pub mod Laws
use ptp_client.Prelude.{
  ℕ, ◌+◌, ◌*◌, ◌^◌, ◌≡◌, ◌++◌, ◌||◌, ◌&&◌, ℤ, pos, negsuc, leb, length, if◌then◌else◌, leb_ℤ, ltb_ℤ,
  mask, Result, ok, err, value_error, check, ◌>>=◌, ◌>>◌, ◌≤ℤ◌, ◌<ℤ◌,
}
use ptp_client.Wire.{Bytes, be, pack_uint, from_be, unpack_uint, slice}

pub record PtpTimestamp : Type 0 where
  pub seconds : ℤ
  pub nanoseconds : ℤ

-- The constructor call: `__post_init__` refuses what is out of range.
unfoldable pub make : ℤ → ℤ → Result PtpTimestamp
make seconds nanoseconds =
    if ltb_ℤ seconds (pos 0) || leb_ℤ (pos (2 ^ 48)) seconds
    then err value_error
    else if leb_ℤ (pos (10 ^ 9)) nanoseconds || ltb_ℤ nanoseconds (pos 0)
    then err value_error
    else ok (record { seconds = seconds; nanoseconds = nanoseconds })

unfoldable pub zero : Result PtpTimestamp
zero = make (pos 0) (pos 0)

unfoldable pub pack10 : PtpTimestamp → Bytes
pack10 t = be 6 (mask 48 t.seconds) ++ be 4 (mask 32 t.nanoseconds)

unfoldable pub unpack10 : Bytes → ℕ → Result PtpTimestamp
unpack10 bs offset = do
  check (leb (offset + 10) (length bs)) value_error
  ns ← unpack_uint 4 bs (offset + 6)
  make (pos (from_be (slice bs offset 6))) (pos ns)

-- What `__post_init__` admits.
pub record IsValid (t : PtpTimestamp) : Type 0 where
  pub seconds_fit : (pos 0 ≤ℤ t.seconds) × (t.seconds <ℤ pos (2 ^ 48))
  pub nanoseconds_fit : (pos 0 ≤ℤ t.nanoseconds) × (t.nanoseconds <ℤ pos (10 ^ 9))
