-- ===== src/Capture/Checksum.antt =====
-- A checksum that is put in makes the receiver's sum come out as all ones.
use ptp_client.Prelude.{
  ℕ, ◌+◌, ◌*◌, ◌^◌, ◌<◌, ◌≡◌, refl, ap, ◌∙◌, ◌++◌, [], ◌∷◌, arith, ℤ, length, mask, mask-lt, ok,
}
use ptp_client.Wire.{Bytes, be, unpack_uint}
use ptp_client.Wire.Laws.{from_be-be, pack_uint_pos, two_octets, word_lt}
use ptp_client.Capture.{word_sum, carried, complement, ipv4_checksum, ip_header}

-- The sum of a datagram below 4 GiB of words, with its complement added, carries to all ones.
pub complement_lem :
    (s : ℕ) → s < 65535 * 2 ^ 16 → carried (carried (s + complement (carried (carried s)))) ≡ 65535
unfolding carried complement
complement_lem s h = omega arith

module _ (size : ℕ) (id : ℤ) (s t : ℕ) where
  -- The header with checksum `c` between the addresses `s` and `t`.
  abbrev header : ℕ → Bytes
  header c =
      (0x45 ∷ 0 ∷ [])
      ++ (be 2 size
          ++ (be 2 (mask 16 id) ++ ((0x40 ∷ 0 ∷ 64 ∷ 17 ∷ []) ++ (be 2 c ++ (be 4 s ++ be 4 t)))))

  sum_header : (c : ℕ) → c < 2 ^ 16 → word_sum (header c) ≡ word_sum (header 0) + c
  unfolding word_sum
  sum_header c small = omega (arith, from_be-be 2 c small, from_be-be 2 0 (omega arith))

  sum_bound : word_sum (header 0) < 65535 * 2 ^ 16
  unfolding word_sum
  sum_bound = omega (
    arith,
    two_octets (0x45 ∷ 0 ∷ []) (omega arith),
    two_octets (0x40 ∷ 0 ∷ []) (omega arith),
    two_octets (64 ∷ 17 ∷ []) (omega arith),
    word_lt 1 0 size,
    word_lt 1 0 (mask 16 id),
    word_lt 1 0 0,
    word_lt 3 2 s,
    word_lt 1 0 s,
    word_lt 3 2 t,
    word_lt 1 0 t,
  )

complement_lt : (s : ℕ) → complement s < 2 ^ 16
unfolding complement
complement_lt s = omega arith

-- The IP header that is built for a datagram of less than 64 KiB, with the checksum of the header
-- that has none, passes the receiver's test: its words sum to all ones.
pub ip_header_lem :
    (size : ℕ) (id : ℤ) (src dst : Bytes) (s t : ℕ)
    → size < 2 ^ 16
    → unpack_uint 4 src 0 ≡ ok s
    → unpack_uint 4 dst 0 ≡ ok t
    → s < 2 ^ 32
    → t < 2 ^ 32
    → (blank : Bytes) × (bs : Bytes) × (ip_header size id 0 src dst ≡ ok blank)
      × (ip_header size id (ipv4_checksum blank) src dst ≡ ok bs)
      × (length bs ≡ 20)
      × (carried (carried (word_sum bs)) ≡ 65535)
unfolding ip_header ipv4_checksum
ip_header_lem size id src dst s t small from to s_fits t_fits =
    let blank = header size id s t 0 in
    let sum = word_sum blank in
    let c = complement (carried (carried sum)) in
    (
      blank,
      header size id s t c,
      rw
          (
            from,
            to,
            pack_uint_pos 2 size small,
            pack_uint_pos 2 (mask 16 id) (mask-lt 16 id),
            pack_uint_pos 4 s s_fits,
            pack_uint_pos 4 t t_fits,
          )
          refl,
      rw
          (
            from,
            to,
            pack_uint_pos 2 size small,
            pack_uint_pos 2 (mask 16 id) (mask-lt 16 id),
            pack_uint_pos 2 c (complement_lt (carried (carried sum))),
            pack_uint_pos 4 s s_fits,
            pack_uint_pos 4 t t_fits,
          )
          refl,
      refl,
      ap (λ x. carried (carried x))
            (sum_header size id s t c (complement_lt (carried (carried sum))))
          ∙ complement_lem sum (sum_bound size id s t),
    )
