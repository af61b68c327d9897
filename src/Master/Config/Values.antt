-- ===== src/Master/Config/Values.antt =====
-- The effective values of a valid configuration, as the parts of a message use them.
use ptp_client.Prelude.{◌≡◌, refl, arith, ℤ, pos, length, Option, none, some, ok}
use ptp_client.Wire.{Bytes}
use ptp_client.Master.Transport.Frames.{VlanFits}
use ptp_client.Master.Config.{
  MasterConfig, MessageKey, domain_number, clock_identity, port_number, transport_specific, dst_mac,
  vlan_id, vlan_pcp, Value, null, int, octets, other_value, effective, effective_clock_identity,
  validate_override_value, check_int, as_int, as_octets, as_optional, as_priority,
}
use ptp_client.Master.Config.Valid.{IsConfig, Between}
use ptp_client.Master.Config.Effective.{Fits, effective-Fits}

port_value :
    (v : Value) → Fits port_number v → (z : ℤ) × (as_int v ≡ ok z) × Between (pos 0) (pos 0xffff) z
unfolding validate_override_value check_int
port_value (int z) fits = (z, refl, ground arith)
port_value null fits = ground arith
port_value (octets b) fits = ground arith
port_value other_value fits = ground arith

domain_value :
    (v : Value) → Fits domain_number v → (z : ℤ) × (as_int v ≡ ok z) × Between (pos 0) (pos 255) z
unfolding validate_override_value check_int
domain_value (int z) fits = (z, refl, ground arith)
domain_value null fits = ground arith
domain_value (octets b) fits = ground arith
domain_value other_value fits = ground arith

transport_value :
    (v : Value)
    → Fits transport_specific v
    → (z : ℤ) × (as_int v ≡ ok z) × Between (pos 0) (pos 0xf) z
unfolding validate_override_value check_int
transport_value (int z) fits = (z, refl, ground arith)
transport_value null fits = ground arith
transport_value (octets b) fits = ground arith
transport_value other_value fits = ground arith

priority_value : (o : Option ℤ) (v : Value) → Fits vlan_pcp v → (z : ℤ) × (as_priority o v ≡ ok z)
unfolding validate_override_value check_int
priority_value none v fits = (pos 0, refl)
priority_value (some x) (int z) fits = (z, refl)
priority_value (some x) null fits = ground arith
priority_value (some x) (octets b) fits = ground arith
priority_value (some x) other_value fits = ground arith

mac_value : (v : Value) → Fits dst_mac v → (b : Bytes) × (as_octets v ≡ ok b) × (length b ≡ 6)
unfolding validate_override_value check_int
mac_value (octets b) fits = (b, refl, ground arith)
mac_value null fits = ground arith
mac_value (int z) fits = ground arith
mac_value other_value fits = ground arith

vlan_value : (v : Value) → Fits vlan_id v → (o : Option ℤ) × (as_optional v ≡ ok o) × VlanFits o
unfolding validate_override_value check_int
vlan_value null fits = (none, refl, tt)
vlan_value (int z) fits = (some z, refl, ground arith)
vlan_value (octets b) fits = ground arith
vlan_value other_value fits = ground arith

-- An effective clock identity, if there is one, has 8 octets.
abbrev pub Sized : Option Bytes → Type 0
Sized none = Unit {0}
Sized (some b) = length b ≡ 8

identity_value :
    (v : Value) → Fits clock_identity v → Sized (elim v [ octets b ↦ some b | _ ↦ none ])
unfolding validate_override_value
identity_value (octets b) fits = ground arith
identity_value null fits = tt
identity_value (int z) fits = tt
identity_value other_value fits = tt

module _ (c : MasterConfig) (w : IsConfig c) (k : MessageKey) where
  pub effective_port :
      (z : ℤ) × (as_int (effective c k port_number) ≡ ok z) × Between (pos 0) (pos 0xffff) z
  effective_port = port_value _ (effective-Fits c k port_number w (λ e. ground arith))

  pub effective_domain :
      (z : ℤ) × (as_int (effective c k domain_number) ≡ ok z) × Between (pos 0) (pos 255) z
  effective_domain = domain_value _ (effective-Fits c k domain_number w (λ e. ground arith))

  pub effective_transport :
      (z : ℤ) × (as_int (effective c k transport_specific) ≡ ok z) × Between (pos 0) (pos 0xf) z
  effective_transport =
      transport_value _ (effective-Fits c k transport_specific w (λ e. ground arith))

  pub effective_priority :
      (o : Option ℤ) → (z : ℤ) × (as_priority o (effective c k vlan_pcp) ≡ ok z)
  effective_priority o = priority_value o _ (effective-Fits c k vlan_pcp w (λ e. ground arith))

  pub effective_mac : (b : Bytes) × (as_octets (effective c k dst_mac) ≡ ok b) × (length b ≡ 6)
  effective_mac = mac_value _ (effective-Fits c k dst_mac w (λ e. ground arith))

  pub effective_vlan : (o : Option ℤ) × (as_optional (effective c k vlan_id) ≡ ok o) × VlanFits o
  effective_vlan = vlan_value _ (effective-Fits c k vlan_id w (λ e. ground arith))

  pub effective_identity : Sized (effective_clock_identity c k)
  unfolding effective_clock_identity
  effective_identity = identity_value _ (effective-Fits c k clock_identity w (λ e. ground arith))
