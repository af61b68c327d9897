-- ===== src/Master/Config.antt =====
-- src/ptp_client/ptp/l2master/config.py: MasterConfig, its effective per-message values and its
-- validation. Python's dynamic values in the override table are `Value`s. `follow_up_gap` is
-- follow_up_gap_ms in thousandths of a millisecond.
pub mod Jsonc
pub mod Valid
pub mod Effective
pub mod Values
use ptp_client.Prelude.{
  ℕ, ◌+◌, ◌*◌, ◌^◌, List, [], ◌∷◌, ◌&&◌, not, Bool, true, false, ℤ, pos, negsuc, ltb, leb, leb_ℤ,
  ltb_ℤ, ◌==◌, length, bytes_eq, if◌then◌else◌, Option, none, some, Result, ok, err, value_error,
  type_error, check, ◌>>=◌, ◌>>◌,
}
use ptp_client.Wire.{Bytes}

pub data Profile : Type 0 where
  g82751 ieee1588v2 unknown_profile : Profile

-- MESSAGE_KEYS, and any other key.
pub data MessageKey : Type 0 where
  announce_key sync_key followup_key delayresp_key other_key : MessageKey

-- _OVERRIDE_KEYS, and any other name.
pub data Field : Type 0 where
  domain_number clock_identity port_number transport_specific dst_mac vlan_id vlan_pcp : Field
  other_field : Field

-- A value as the JSON configuration gives it.
pub data Value : Type 0 where
  null : Value
  int : ℤ → Value
  octets : Bytes → Value
  other_value : Value

-- The entry of one message type: an object of fields, or something else.
pub data Override : Type 0 where
  object : List (Field × Value) → Override
  not_object : Override

pub record MasterConfig : Type 0 where
  pub interface_given : Bool
  pub offline : Bool
  pub profile : Profile
  pub domain : ℤ
  pub identity : Option Bytes
  pub port : ℤ
  pub priority1 : ℤ
  pub priority2 : ℤ
  pub clock_class : ℤ
  pub clock_accuracy : ℤ
  pub offset_scaled_log_variance : ℤ
  pub time_source : ℤ
  pub current_utc_offset : ℤ
  pub log_announce_interval : ℤ
  pub log_sync_interval : ℤ
  pub two_step : Bool
  pub follow_up_gap : ℤ
  pub transport : ℤ
  pub announce_flags : ℤ
  pub sync_flags : ℤ
  pub follow_up_flags : ℤ
  pub delay_resp_flags : ℤ
  pub vlan : Option ℤ
  pub pcp : ℤ
  pub mac : Bytes
  pub announce_receipt_timeout : ℤ
  pub delay_resp_unicast : Bool
  pub max_slaves : ℤ
  pub delay_resp_rate_limit : ℤ
  pub header_link : Bool
  pub message_overrides : List (MessageKey × Override)

unfoldable pub key_same : MessageKey → MessageKey → Bool
key_same announce_key announce_key = true
key_same sync_key sync_key = true
key_same followup_key followup_key = true
key_same delayresp_key delayresp_key = true
key_same _ _ = false

unfoldable pub field_same : Field → Field → Bool
field_same domain_number domain_number = true
field_same clock_identity clock_identity = true
field_same port_number port_number = true
field_same transport_specific transport_specific = true
field_same dst_mac dst_mac = true
field_same vlan_id vlan_id = true
field_same vlan_pcp vlan_pcp = true
field_same _ _ = false

abbrev optional_octets : Option Bytes → Value
optional_octets none = null
optional_octets (some b) = octets b

abbrev optional_int : Option ℤ → Value
optional_int none = null
optional_int (some z) = int z

-- getattr(self, field_name)
unfoldable pub shared : MasterConfig → Field → Value
shared c domain_number = int c.domain
shared c clock_identity = optional_octets c.identity
shared c port_number = int c.port
shared c transport_specific = int c.transport
shared c dst_mac = octets c.mac
shared c vlan_id = optional_int c.vlan
shared c vlan_pcp = int c.pcp
shared c other_field = null

-- self.message_overrides.get(msg_key) or {}, where `validate` has refused entries that are no object
unfoldable pub overrides_of : MessageKey → List (MessageKey × Override) → List (Field × Value)
overrides_of k [] = []
overrides_of k ((j, object fields) ∷ rest) = if key_same j k then fields else overrides_of k rest
overrides_of k ((j, not_object) ∷ rest) = overrides_of k rest

-- ov.get(field_name, default)
unfoldable pub field_or : Field → Value → List (Field × Value) → Value
field_or f d [] = d
field_or f d ((g, v) ∷ rest) = if field_same g f then v else field_or f d rest

unfoldable pub effective : MasterConfig → MessageKey → Field → Value
unfolding shared overrides_of field_or
effective c k f =
    if c.header_link
    then shared c f
    else field_or f (shared c f) (overrides_of k c.message_overrides)

unfoldable pub effective_clock_identity : MasterConfig → MessageKey → Option Bytes
effective_clock_identity c k = elim (effective c k clock_identity) [ octets b ↦ some b | _ ↦ none ]

-- A value used as a number, or as octets: anything else raises.
abbrev pub as_int : Value → Result ℤ
as_int (int z) = ok z
as_int _ = err type_error

abbrev pub as_octets : Value → Result Bytes
as_octets (octets b) = ok b
as_octets _ = err type_error

-- `vlan_id` as build_ethernet_frame takes it
abbrev pub as_optional : Value → Result (Option ℤ)
as_optional null = ok none
as_optional (int z) = ok (some z)
as_optional _ = err type_error

-- The priority counts only beside an identifier.
abbrev pub as_priority : Option ℤ → Value → Result ℤ
as_priority none v = ok (pos 0)
as_priority (some vlan) v = as_int v

abbrev pub within : ℤ → ℤ → ℤ → Bool
within lo hi v = leb_ℤ lo v && leb_ℤ v hi

abbrev pub all_ff : Bytes
all_ff = 255 ∷ 255 ∷ 255 ∷ 255 ∷ 255 ∷ 255 ∷ 255 ∷ 255 ∷ []

-- `lo <= value <= hi` on a value; a comparison of octets with a number raises TypeError.
unfoldable pub check_int : ℤ → ℤ → Value → Result (Unit {0})
check_int lo hi (int v) = check (within lo hi v) value_error
check_int lo hi _ = err type_error

-- _validate_override_value
unfoldable pub validate_override_value : Field → Value → Result (Unit {0})
unfolding check_int
validate_override_value vlan_id null = ok tt
validate_override_value clock_identity null = ok tt
validate_override_value f null = err value_error
validate_override_value clock_identity (octets b) =
    check (length b == 8 && not (bytes_eq b all_ff)) value_error
validate_override_value clock_identity v = err value_error
validate_override_value dst_mac (octets b) = check (length b == 6) value_error
validate_override_value dst_mac v = err value_error
validate_override_value domain_number v = check_int (pos 0) (pos 255) v
validate_override_value port_number v = check_int (pos 0) (pos 0xffff) v
validate_override_value transport_specific v = check_int (pos 0) (pos 0xf) v
validate_override_value vlan_id v = check_int (pos 0) (pos 0xfff) v
validate_override_value vlan_pcp v = check_int (pos 0) (pos 7) v
validate_override_value other_field v = ok tt

-- The loop over one entry's fields.
unfoldable pub validate_fields : List (Field × Value) → Result (Unit {0})
validate_fields [] = ok tt
validate_fields ((other_field, v) ∷ rest) = err value_error
validate_fields ((f, v) ∷ rest) = validate_override_value f v >> validate_fields rest

-- The loop over message_overrides.
unfoldable pub validate_overrides : List (MessageKey × Override) → Result (Unit {0})
validate_overrides [] = ok tt
validate_overrides ((other_key, o) ∷ rest) = err value_error
validate_overrides ((k, not_object) ∷ rest) = err value_error
validate_overrides ((k, object fields) ∷ rest) = validate_fields fields >> validate_overrides rest

-- _RANGES
unfoldable pub check_ranges : MasterConfig → Profile → Result (Unit {0})
check_ranges c g82751 = do
  check (within (pos 24) (pos 43) c.domain) value_error
  check (within (negsuc 2) (pos 0) c.log_announce_interval) value_error
  check (within (negsuc 6) (negsuc 2) c.log_sync_interval) value_error
check_ranges c ieee1588v2 = do
  check (within (pos 0) (pos 127) c.domain) value_error
  check (within (negsuc 2) (pos 1) c.log_announce_interval) value_error
  check (within (negsuc 6) (pos 1) c.log_sync_interval) value_error
check_ranges c unknown_profile = err value_error

unfoldable pub check_identity : Option Bytes → Result (Unit {0})
check_identity none = ok tt
check_identity (some b) = do
  check (length b == 8) value_error
  check (not (bytes_eq b all_ff)) value_error

unfoldable pub check_vlan : Option ℤ → Result (Unit {0})
check_vlan none = ok tt
check_vlan (some v) = check (within (pos 0) (pos 0xfff) v) value_error

unfoldable pub validate : MasterConfig → Result (Unit {0})
validate c = do
  check c.interface_given value_error
  check_ranges c c.profile
  check_identity c.identity
  check (length c.mac == 6) value_error
  check_vlan c.vlan
  check (within (pos 0) (pos 7) c.pcp) value_error
  check (within (pos 0) (pos 0xf) c.transport) value_error
  check (within (pos 0) (pos 0xffff) c.announce_flags) value_error
  check (within (pos 0) (pos 0xffff) c.sync_flags) value_error
  check (within (pos 0) (pos 0xffff) c.follow_up_flags) value_error
  check (within (pos 0) (pos 0xffff) c.delay_resp_flags) value_error
  check (within (pos 0) (pos 0xffff) c.port) value_error
  check (leb_ℤ (pos 0) c.follow_up_gap) value_error
  check (leb_ℤ (pos 1) c.max_slaves) value_error
  check (leb_ℤ (pos 0) c.delay_resp_rate_limit) value_error
  validate_overrides c.message_overrides
