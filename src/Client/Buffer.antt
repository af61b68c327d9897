-- ===== src/Client/Buffer.antt =====
-- What the buffer of a client holds, and what is taken from it.
use ptp_client.Prelude.{
  ◌⊎◌, ◌<ℤ◌, ℕ, ap, ◌≤◌, ◌<◌, ◌≡◌, refl, ◌++◌, List, [], ◌∷◌, All, arith, ltb, ltb_ℤ, pos, ◌≤ℤ◌,
  Bool, true, false, length, drop, length-append, length-drop, if◌then◌else◌, Option, none, some,
  ok, Bool-cases, inl, inr,
}
use ptp_client.Wire.{Bytes, IsBytes}
use ptp_client.Header.{PtpHeader, unpack}
use ptp_client.Header.Total.{unpack_total, decoded}
use ptp_client.Client.{
  Datagram, append_bounded, cut, ingest_header, ingest_ptp_datagram, pop_matching,
}

length-append_bounded :
    (n : ℕ) (buffer : List Datagram) (d : Datagram)
    → 0 < n
    → length buffer ≤ n
    → length (append_bounded n buffer d) ≤ n
unfolding append_bounded
length-append_bounded n buffer d positive bounded =
    let a = length-append buffer (d ∷ []) in
    let b = length-append (drop 1 buffer) (d ∷ []) in let c = length-drop 1 buffer in ground arith

-- Shorter than a header, or than the length that its header states; and not.
abbrev pub IsShort : Bytes → Type 0
IsShort bs =
    (length bs < 34)
    ⊎ ((h : PtpHeader) × (unpack bs 0 ≡ ok h) × (pos (length bs) <ℤ h.message_length))

-- On any octets, with a buffer within its bound: `_ingest_ptp_datagram` returns; the buffer stays
-- within its bound. A datagram that it refuses is shorter than 34 octets or than the length its header
-- states, and changes nothing. One that it accepts has 34 octets and the length its header states, and
-- is appended with its header, cut to that length.
pub ingest_lem :
    (n : ℕ) (buffer : List Datagram) (bs : Bytes) (wall : ℕ)
    → 0 < n
    → length buffer ≤ n
    → IsBytes bs
    → (buffer' : List Datagram) × (accepted : Bool) × (ingest_ptp_datagram n buffer bs wall
        ≡ ok (buffer', accepted))
      × (length buffer' ≤ n)
      × (accepted ≡ false → (buffer' ≡ buffer) × IsShort bs)
      × (accepted ≡ true
          → (h : PtpHeader) × (34 ≤ length bs)
            × (unpack bs 0 ≡ ok h)
            × (h.message_length ≤ℤ pos (length bs))
            × (buffer'
                ≡ append_bounded n buffer (record { header = h; payload = cut h bs; wall = wall })))
unfolding ingest_ptp_datagram ingest_header
ingest_lem n buffer bs wall positive bounded octets = elim (Bool-cases (ltb (length bs) 34)) [
  | inl short ↦ (
    buffer,
    false,
    rw (ingest_ptp_datagram, short) refl,
    bounded,
    λ e. (refl, inl (ground arith)),
    λ e. ground arith,
  )
  | inr long ↦
      let (p, read, _) = unpack_total bs 0 octets (ground arith) in
      let h = decoded bs 0 p in
      elim (Bool-cases (ltb_ℤ (pos (length bs)) h.message_length)) [
        | inl truncated ↦ (
          buffer,
          false,
          rw (ingest_ptp_datagram, long, read) (rw (ingest_header, truncated) refl),
          bounded,
          λ e. (refl, inr (h, read, ground arith)),
          λ e. ground arith,
        )
        | inr whole ↦ (
          append_bounded n buffer (record { header = h; payload = cut h bs; wall = wall }),
          true,
          rw (ingest_ptp_datagram, long, read) (rw (ingest_header, whole) refl),
          length-append_bounded n buffer _ positive bounded,
          λ e. ground arith,
          λ e. (h, ground arith, read, ground arith, refl),
        )
      ]
]

-- What is in front of an entry, and the entry, and what is behind it.
abbrev pub Taken : (Datagram → Bool) → List Datagram → Datagram → List Datagram → Type 0
Taken accept buffer d rest =
    (before : List Datagram) × (after : List Datagram) × (buffer ≡ before ++ (d ∷ after))
    × (rest ≡ before ++ after)
    × (accept d ≡ true)
    × All (λ x. accept x ≡ false) before

-- The outcome of a scan of the buffer.
abbrev pub Scanned : (Datagram → Bool) → List Datagram → Option (Datagram × List Datagram) → Type 0
Scanned accept buffer none = All (λ x. accept x ≡ false) buffer
Scanned accept buffer (some (d, rest)) = Taken accept buffer d rest

-- What a scan finds from an entry on, given whether that is accepted and what it finds behind it.
abbrev found_from :
    Datagram
    → List Datagram
    → Bool
    → Option (Datagram × List Datagram)
    → Option (Datagram × List Datagram)
found_from x xs b o =
    if b then some (x, xs) else elim o [ none ↦ none | some (d, rest) ↦ some (d, x ∷ rest) ]

scan_step :
    (accept : Datagram → Bool) (x : Datagram) (xs : List Datagram)
    (o : Option (Datagram × List Datagram)) (b : Bool)
    → accept x ≡ b
    → Scanned accept xs o
    → Scanned accept (x ∷ xs) (found_from x xs b o)
scan_step accept x xs o true accepted ih = ([], xs, refl, refl, accepted, tt)
scan_step accept x xs none false e ih = (e, ih)
scan_step accept x xs (some (d, rest)) false e (before, after, split, left, accepted, others) =
    (x ∷ before, after, ap (λ l. x ∷ l) split, ap (λ l. x ∷ l) left, accepted, (e, others))

-- A scan takes the first accepted entry and leaves the others in their order; it takes nothing
-- exactly if no entry is accepted.
pub pop_matching_lem :
    (accept : Datagram → Bool) (buffer : List Datagram)
    → Scanned accept buffer (pop_matching accept buffer)
unfolding pop_matching
pop_matching_lem accept [] = tt
pop_matching_lem accept (x ∷ xs) =
    scan_step accept x xs (pop_matching accept xs) (accept x) refl (pop_matching_lem accept xs)
