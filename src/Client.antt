-- ===== src/Client.antt =====
-- src/ptp_client/ptp/client.py: the buffer of received datagrams of PTPAcrUnicastClient. Both methods
-- hold the buffer's condition variable while they change it, so that each is one step.
pub mod Buffer
pub mod World
pub mod Sync
pub mod Received
pub mod Quiet
pub mod Reaches
pub mod Waits
pub mod Exchange
use ptp_client.Prelude.{
  ℕ, suc, ◌+◌, ◌++◌, List, [], ◌∷◌, ltb, ltb_ℤ, ℤ, pos, pos_part, Bool, true, false, length, take,
  drop, if◌then◌else◌, Option, none, some, Result, ok, err, value_error,
}
use ptp_client.Wire.{Bytes}
use ptp_client.Header.{PtpHeader, unpack}

-- (hdr, data, wall); the receive time is in nanoseconds.
pub record Datagram : Type 0 where
  pub header : PtpHeader
  pub payload : Bytes
  pub wall : ℕ

-- deque(maxlen=...).append: at the bound the oldest entry goes.
unfoldable pub append_bounded : ℕ → List Datagram → Datagram → List Datagram
append_bounded maxlen buffer d =
    if ltb (length buffer) maxlen then buffer ++ (d ∷ []) else drop 1 buffer ++ (d ∷ [])

-- data[: hdr.message_length] of a datagram that is not shorter
unfoldable pub cut : PtpHeader → Bytes → Bytes
cut h bs = take (pos_part h.message_length) bs

-- The part of _ingest_ptp_datagram behind the header.
unfoldable pub ingest_header : ℕ → List Datagram → Bytes → ℕ → PtpHeader → List Datagram × Bool
ingest_header maxlen buffer bs wall h =
    if ltb_ℤ (pos (length bs)) h.message_length then (buffer, false) else (
      append_bounded maxlen buffer (record { header = h; payload = cut h bs; wall = wall }),
      true,
    )

-- _ingest_ptp_datagram: the buffer afterwards, and whether the datagram was accepted.
unfoldable pub ingest_ptp_datagram : ℕ → List Datagram → Bytes → ℕ → Result (List Datagram × Bool)
ingest_ptp_datagram maxlen buffer bs wall =
    if ltb (length bs) 34 then ok (buffer, false) else elim (unpack bs 0) [
      | ok h ↦ ok (ingest_header maxlen buffer bs wall h)
      | err value_error ↦ ok (buffer, false)
      | err e ↦ err e
    ]

-- One scan of _pop_matching_general: the first accepted entry, and the buffer without it.
unfoldable pub pop_matching : (Datagram → Bool) → List Datagram → Option (Datagram × List Datagram)
pop_matching accept [] = none
pop_matching accept (d ∷ ds) =
    let later = pop_matching accept ds in
    if accept d
    then some (d, ds)
    else elim later [ none ↦ none | some (x, rest) ↦ some (x, d ∷ rest) ]
