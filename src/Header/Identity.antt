-- ===== src/Header/Identity.antt =====
-- The port identity codec.
use ptp_client.Prelude.{
  ℕ, ◌+◌, ◌≡◌, refl, ◌++◌, arith, ℤ, pos, negsuc, pos_part, leb, length, ok, value_error, room,
  drop-append, take-append, append_assoc, length-append, check, returned,
}
use ptp_client.Wire.{Bytes, be, from_be, unpack_uint, slice}
use ptp_client.Wire.Laws.{from_be-be, FitsUint, pack_uint_ok, unpack_uint-past, unpack_uint-first}
use ptp_client.Header.{PortIdentity, port_identity, pack_identity, unpack_identity}

-- What `__post_init__` admits.
pub record IsIdentity (p : PortIdentity) : Type 0 where
  pub identity_length : length p.clock_identity ≡ 8
  pub port_fits : FitsUint 2 p.port_number

-- The octets of an identity.
abbrev pub identity_octets : PortIdentity → Bytes
identity_octets p = p.clock_identity ++ be 2 (pos_part p.port_number)

pub pack_identity_ok : (p : PortIdentity) → IsIdentity p → pack_identity p ≡ ok (identity_octets p)
unfolding pack_identity
pack_identity_ok p v = rw (pack_uint_ok 2 p.port_number v.port_fits)

pub port_identity_ok :
    (p : PortIdentity) → IsIdentity p → port_identity p.clock_identity p.port_number ≡ ok p
unfolding port_identity
port_identity_ok p v = ground (arith, v.identity_length, v.port_fits)

pub port_identity-IsIdentity :
    (c : Bytes) (n : ℤ) (p : PortIdentity) → port_identity c n ≡ ok p → IsIdentity p
unfolding port_identity
port_identity-IsIdentity c n p h = ground arith

pub port_back : (z : ℤ) → FitsUint 2 z → pos (from_be (be 2 (pos_part z))) ≡ z
port_back (pos n) h = rw (from_be-be 2 n (omega arith))
port_back (negsuc n) h = absurd (omega arith)

-- An identity reads back from wherever it was written.
pub unpack_identity_octets :
    (pre : Bytes) (p : PortIdentity) (rest : Bytes) (offset : ℕ)
    → length pre ≡ offset
    → IsIdentity p
    → unpack_identity (pre ++ (identity_octets p ++ rest)) offset ≡ ok p
unfolding unpack_identity
unpack_identity_octets pre p rest offset e v =
    rw
      (
        room pre (identity_octets p) rest offset 10 e (
            omega (
              arith,
              length-append p.clock_identity (be 2 (pos_part p.port_number)),
              v.identity_length,
            )),
        unpack_uint-past 2 pre (identity_octets p ++ rest) offset 8 e,
        drop-append pre (identity_octets p ++ rest) offset e,
        append_assoc p.clock_identity (be 2 (pos_part p.port_number)) rest,
        unpack_uint-past 2 p.clock_identity (be 2 (pos_part p.port_number) ++ rest) 8 0
            v.identity_length,
        unpack_uint-first 2 (be 2 (pos_part p.port_number)) rest refl,
        take-append p.clock_identity (be 2 (pos_part p.port_number) ++ rest) 8 v.identity_length,
        port_back p.port_number v.port_fits,
      )
      (port_identity_ok p v)

pub unpack_identity-IsIdentity :
    (bs : Bytes) (offset : ℕ) (p : PortIdentity) → unpack_identity bs offset ≡ ok p → IsIdentity p
unfolding unpack_identity
unpack_identity-IsIdentity bs offset p h =
    let (_, _, h') = returned (check (leb (offset + 10) (length bs)) value_error) _ h in
    let (port, _, made) = returned (unpack_uint 2 bs (offset + 8)) _ h' in
    port_identity-IsIdentity (slice bs offset 8) (pos port) p made
