-- ===== src/Request/Delay.antt =====
-- src/ptp_client/ptp/delay_request.py: the specification of a Delay_Req. Of each pair of keys the JSON
-- spelling is looked up first; a key with null is as one that is missing.
use ptp_client.Prelude.{
  ℕ, ◌+◌, ◌*◌, ◌^◌, ◌/◌, ◌%◌, ◌<◌, ◌≡◌, refl, ap, ◌∙◌, [], ◌∷◌, arith, false, ltb, ◌==◌, ◌||◌,
  length, if◌then◌else◌, ℤ, pos, negsuc, mask, Option, none, some, ok, All,
}
use ptp_client.Wire.{Bytes, IsBytes}
use ptp_client.Header.{PortIdentity}
use ptp_client.Header.Identity.{IsIdentity, port_identity_ok}
use ptp_client.Request.{
  Text, ClockValue, octets, text, TimestampSpec, Spec, named, delay_req_name, is_space, lstrip,
  rstrip, without_separators, hex_digit, from_hex, parse_clock_identity, clock_octets,
  spec_identity, source_of,
}

-- A digit of bytes.hex().
unfoldable pub hex_char : ℕ → ℕ
hex_char d = if ltb d 10 then 48 + d else 87 + d

unfoldable pub to_hex : Bytes → Text
to_hex [] = []
to_hex (b ∷ bs) = hex_char (b / 16) ∷ hex_char (b % 16) ∷ to_hex bs

-- _clock_hex
unfoldable pub clock_hex : ClockValue → Text
clock_hex (octets bs) = to_hex bs
clock_hex (text s) = without_separators (rstrip (lstrip s))

-- The overrides of a Delay_Req.
pub record Overrides : Type 0 where
  pub clock_identity_json : Option ClockValue
  pub clock_identity : Option ClockValue
  pub port_number_json : Option ℤ
  pub port_number : Option ℤ
  pub flags : Option ℤ
  pub correction_field_ns_json : Option ℤ
  pub correction_field_ns : Option ℤ
  pub origin_timestamp_json : Option TimestampSpec
  pub origin_timestamp : Option TimestampSpec

-- The first of two keys that is given.
abbrev pub first {ℓ} : {A : Type ℓ} → Option A → Option A → Option A
first none later = later
first (some a) later = some a

abbrev pub or_else {ℓ} : {A : Type ℓ} → Option A → A → A
or_else none default = default
or_else (some a) default = a

unfoldable pub build_delay_request_spec : Overrides → ℕ → ClockValue → ℤ → ℤ → Spec
build_delay_request_spec o domain_number clock_identity port_number default_flags = record {
  message_type = named delay_req_name;
  version_ptp = none;
  domain_number = some (pos (domain_number % 2 ^ 8));
  flags = some (pos (mask 16 (or_else o.flags default_flags)));
  correction_field_ns =
      some (or_else (first o.correction_field_ns_json o.correction_field_ns) (pos 0));
  transport_specific = none;
  sequence_id = none;
  log_message_interval = some (negsuc 126);
  minor_sdo_id = none;
  control_field = none;
  source = none;
  identity = record {
    clock_identity =
        some (
          text (clock_hex (or_else (first o.clock_identity_json o.clock_identity) clock_identity)));
    port_number = some (or_else (first o.port_number_json o.port_number) port_number);
  };
  origin_timestamp = first o.origin_timestamp_json o.origin_timestamp;
  precise_origin_timestamp = none;
  receive_timestamp = none;
  requesting_port_identity = none;
}

hex_digit-hex_char : (d : ℕ) → d < 16 → hex_digit (hex_char d) ≡ ok d
unfolding hex_digit hex_char
hex_digit-hex_char d h = ground arith

-- Digits are neither spaces nor separators.
char_plain :
    (d : ℕ)
    → d < 16
    → (is_space (hex_char d) ≡ false) × (((hex_char d == 58) || (hex_char d == 45)) ≡ false)
unfolding is_space hex_char
char_plain d h = (ground arith, ground arith)

-- A text without white space and separators.
abbrev IsPlain : Text → Type 0
IsPlain s = All (λ c. (is_space c ≡ false) × (((c == 58) || (c == 45)) ≡ false)) s

to_hex-IsPlain : (bs : Bytes) → IsBytes bs → IsPlain (to_hex bs)
unfolding to_hex
to_hex-IsPlain [] h = tt
to_hex-IsPlain (b ∷ bs) (k, h) =
    (char_plain (b / 16) (omega arith), (char_plain (b % 16) (omega arith), to_hex-IsPlain bs h))

lstrip_plain : (s : Text) → IsPlain s → lstrip s ≡ s
unfolding lstrip
lstrip_plain [] h = refl
lstrip_plain (c ∷ s) ((k, l), h) = rw (lstrip, k) refl

rstrip_cons : (c : ℕ) (s : Text) → is_space c ≡ false → rstrip s ≡ s → rstrip (c ∷ s) ≡ c ∷ s
unfolding rstrip
rstrip_cons c [] k e = rw (rstrip, k) refl
rstrip_cons c (d ∷ s) k e = rw (rstrip, e) refl

rstrip_plain : (s : Text) → IsPlain s → rstrip s ≡ s
unfolding rstrip
rstrip_plain [] h = refl
rstrip_plain (c ∷ s) ((k, l), h) = rstrip_cons c s k (rstrip_plain s h)

separators_plain : (s : Text) → IsPlain s → without_separators s ≡ s
unfolding without_separators
separators_plain [] h = refl
separators_plain (c ∷ s) ((k, l), h) =
    rw (without_separators, l) (ap (◌∷◌ c) (separators_plain s h))

length-to_hex : (bs : Bytes) → length (to_hex bs) ≡ 2 * length bs
unfolding to_hex
length-to_hex [] = refl
length-to_hex (b ∷ bs) = omega (arith, length-to_hex bs)

from_hex-to_hex : (bs : Bytes) → IsBytes bs → from_hex (to_hex bs) ≡ ok bs
unfolding from_hex to_hex
from_hex-to_hex [] h = refl
from_hex-to_hex (b ∷ bs) (k, h) =
    rw
      (
        hex_digit-hex_char (b / 16) (omega arith),
        hex_digit-hex_char (b % 16) (omega arith),
        from_hex-to_hex bs h,
      )
      (ap (λ x. ok (x ∷ bs)) (omega arith))

parse_plain : (s : Text) → IsPlain s → length s ≡ 16 → parse_clock_identity s ≡ from_hex s
unfolding parse_clock_identity
parse_plain s h e =
    rw (parse_clock_identity, lstrip_plain s h, rstrip_plain s h, separators_plain s h, e) refl

-- The digits of eight octets are read back as these octets.
pub parse_clock_identity-clock_hex :
    (bs : Bytes) → IsBytes bs → length bs ≡ 8 → parse_clock_identity (clock_hex (octets bs)) ≡ ok bs
unfolding clock_hex
parse_clock_identity-clock_hex bs h e =
    parse_plain (to_hex bs) (to_hex-IsPlain bs h) (omega (arith, length-to_hex bs))
    ∙ from_hex-to_hex bs h

-- No key of the overrides names an identity.
pub record KeepsIdentity (o : Overrides) : Type 0 where
  pub no_clock_json : o.clock_identity_json ≡ none
  pub no_clock : o.clock_identity ≡ none
  pub no_port_json : o.port_number_json ≡ none
  pub no_port : o.port_number ≡ none

-- Unless it is overridden, the source of a Delay_Req is the session's own identity: its clock goes
-- through a text of hexadecimal digits and comes back.
pub build_delay_request_spec_lem :
    (o : Overrides) (domain_number : ℕ) (p : PortIdentity) (default_flags : ℤ)
    → KeepsIdentity o
    → IsIdentity p
    → IsBytes p.clock_identity
    → source_of (
        build_delay_request_spec o domain_number
          (octets p.clock_identity)
          p.port_number
          default_flags)
      ≡ ok p
unfolding source_of spec_identity clock_octets build_delay_request_spec
build_delay_request_spec_lem o domain_number p default_flags k v h =
    rw
      (
        k.no_clock_json,
        k.no_clock,
        k.no_port_json,
        k.no_port,
        spec_identity,
        parse_clock_identity-clock_hex p.clock_identity h v.identity_length,
      )
      (port_identity_ok p v)
