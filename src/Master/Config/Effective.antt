-- ===== src/Master/Config/Effective.antt =====
-- The values that a valid configuration gives each kind of message.
use ptp_client.Prelude.{
  ◌≡◌, ◌≢◌, refl, List, [], ◌∷◌, arith, Bool, true, false, ℤ, Option, none, some, ok, if◌then◌else◌,
}
use ptp_client.Wire.{Bytes}
use ptp_client.Master.Config.{
  Profile, g82751, ieee1588v2, unknown_profile, MasterConfig, MessageKey, announce_key, sync_key,
  followup_key, delayresp_key, other_key, Field, domain_number, clock_identity, port_number,
  transport_specific, dst_mac, vlan_id, vlan_pcp, other_field, Value, int, Override, object,
  not_object, shared, overrides_of, field_or, field_same, effective, validate_fields,
  validate_overrides, validate_override_value, check_int, check_identity, optional_int,
  optional_octets,
}
use ptp_client.Master.Config.Valid.{
  IsConfig, IdentityFits, identity_iff, InRanges, VlanFits, passed,
}

-- _validate_override_value accepts the value.
abbrev pub Fits : Field → Value → Type 0
Fits f v = validate_override_value f v ≡ ok tt

field_same→eq : (g f : Field) → field_same g f ≡ true → g ≡ f
unfolding field_same
field_same→eq domain_number domain_number same = refl
field_same→eq clock_identity clock_identity same = refl
field_same→eq port_number port_number same = refl
field_same→eq transport_specific transport_specific same = refl
field_same→eq dst_mac dst_mac same = refl
field_same→eq vlan_id vlan_id same = refl
field_same→eq vlan_pcp vlan_pcp same = refl
field_same→eq _ _ same = ground arith

fields_split :
    (g : Field) (v : Value) (rest : List (Field × Value))
    → validate_fields ((g, v) ∷ rest) ≡ ok tt
    → Fits g v × (validate_fields rest ≡ ok tt)
unfolding validate_fields
fields_split other_field v rest valid = ground arith
fields_split domain_number v rest valid = passed valid
fields_split clock_identity v rest valid = passed valid
fields_split port_number v rest valid = passed valid
fields_split transport_specific v rest valid = passed valid
fields_split dst_mac v rest valid = passed valid
fields_split vlan_id v rest valid = passed valid
fields_split vlan_pcp v rest valid = passed valid

field_or-Fits :
    (f : Field) (d : Value) (fields : List (Field × Value))
    → Fits f d
    → validate_fields fields ≡ ok tt
    → Fits f (field_or f d fields)
unfolding field_or
field_or-Fits f d [] fits valid = fits
field_or-Fits f d ((g, v) ∷ rest) fits valid =
    let (here, there) = fields_split g v rest valid in
    let later = field_or-Fits f d rest fits there in let same = field_same→eq g f in ground arith

overrides_of-valid :
    (k : MessageKey) (all : List (MessageKey × Override))
    → validate_overrides all ≡ ok tt
    → validate_fields (overrides_of k all) ≡ ok tt
unfolding overrides_of validate_overrides validate_fields
overrides_of-valid k [] valid = refl
overrides_of-valid k ((other_key, o) ∷ rest) valid = ground arith
overrides_of-valid k ((announce_key, object fields) ∷ rest) valid =
    let (here, there) = passed {call = validate_fields fields} valid in
    let later = overrides_of-valid k rest there in ground arith
overrides_of-valid k ((announce_key, not_object) ∷ rest) valid = ground arith
overrides_of-valid k ((sync_key, object fields) ∷ rest) valid =
    let (here, there) = passed {call = validate_fields fields} valid in
    let later = overrides_of-valid k rest there in ground arith
overrides_of-valid k ((sync_key, not_object) ∷ rest) valid = ground arith
overrides_of-valid k ((followup_key, object fields) ∷ rest) valid =
    let (here, there) = passed {call = validate_fields fields} valid in
    let later = overrides_of-valid k rest there in ground arith
overrides_of-valid k ((followup_key, not_object) ∷ rest) valid = ground arith
overrides_of-valid k ((delayresp_key, object fields) ∷ rest) valid =
    let (here, there) = passed {call = validate_fields fields} valid in
    let later = overrides_of-valid k rest there in ground arith
overrides_of-valid k ((delayresp_key, not_object) ∷ rest) valid = ground arith

identity-Fits : (i : Option Bytes) → IdentityFits i → Fits clock_identity (optional_octets i)
unfolding validate_override_value check_identity
identity-Fits none fits = refl
identity-Fits (some b) fits = let checked = (identity_iff (some b)).1 fits in ground arith

vlan-Fits : (v : Option ℤ) → VlanFits v → Fits vlan_id (optional_int v)
unfolding validate_override_value check_int
vlan-Fits none fits = refl
vlan-Fits (some v) fits = ground arith

domain-Fits : (p : Profile) (c : MasterConfig) → InRanges p c → Fits domain_number (int c.domain)
unfolding validate_override_value check_int
domain-Fits g82751 c (range, _, _) = ground arith
domain-Fits ieee1588v2 c (range, _, _) = ground arith
domain-Fits unknown_profile c r = absurd r

shared-Fits : (c : MasterConfig) (f : Field) → IsConfig c → f ≢ other_field → Fits f (shared c f)
unfolding shared validate_override_value check_int
shared-Fits c domain_number wf known = domain-Fits c.profile c wf.ranges
shared-Fits c clock_identity wf known = identity-Fits c.identity wf.identity
shared-Fits c port_number wf known = let range = wf.port in ground arith
shared-Fits c transport_specific wf known = let range = wf.transport in ground arith
shared-Fits c dst_mac wf known = let six = wf.mac in ground arith
shared-Fits c vlan_id wf known = vlan-Fits c.vlan wf.vlan
shared-Fits c vlan_pcp wf known = let range = wf.pcp in ground arith
shared-Fits c other_field wf known = absurd (known refl)

either-Fits :
    (f : Field) (b : Bool) (x y : Value) → Fits f x → Fits f y → Fits f (if b then x else y)
either-Fits f true x y left right = left
either-Fits f false x y left right = right

-- In a configuration that `validate` accepts, the value that `effective` gives any kind of message
-- for any of the seven fields is one that `_validate_override_value` accepts, whether it comes from
-- the header link, from an override or from the shared value.
pub effective-Fits :
    (c : MasterConfig) (k : MessageKey) (f : Field)
    → IsConfig c
    → f ≢ other_field
    → Fits f (effective c k f)
unfolding effective
effective-Fits c k f wf known =
    let link = shared-Fits c f wf known in
    either-Fits f c.header_link _ _ link (
      field_or-Fits f (shared c f) (overrides_of k c.message_overrides) link
        (overrides_of-valid k c.message_overrides wf.overrides))
