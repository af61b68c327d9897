-- ===== src/Master/Config/Valid.antt =====
-- What `validate` accepts, as ranges.
use ptp_client.Prelude.{
  ℕ, ◌≡◌, ◌≢◌, ◌↔◌, refl, arith, Bool, true, false, ℤ, pos, negsuc, ◌≤ℤ◌, leb_ℤ, ◌==◌, length,
  bytes_eq→eq, bytes_eq_refl, Option, none, some, Result, ok, err, value_error, check, ◌>>◌,
}
use ptp_client.Wire.{Bytes}
use ptp_client.Master.Config.{
  Profile, g82751, ieee1588v2, unknown_profile, MasterConfig, check_ranges, check_identity,
  check_vlan, validate, validate_overrides, within, all_ff,
}

abbrev pub Between : ℤ → ℤ → ℤ → Type 0
Between lo hi v = (lo ≤ℤ v) × (v ≤ℤ hi)

abbrev pub InRanges : Profile → MasterConfig → Type 0
InRanges g82751 c =
    Between (pos 24) (pos 43) c.domain
    × Between (negsuc 2) (pos 0) c.log_announce_interval
    × Between (negsuc 6) (negsuc 2) c.log_sync_interval
InRanges ieee1588v2 c =
    Between (pos 0) (pos 127) c.domain
    × Between (negsuc 2) (pos 1) c.log_announce_interval
    × Between (negsuc 6) (pos 1) c.log_sync_interval
InRanges unknown_profile c = ⊥

abbrev pub IdentityFits : Option Bytes → Type 0
IdentityFits none = Unit {0}
IdentityFits (some b) = (length b ≡ 8) × (b ≢ all_ff)

abbrev pub VlanFits : Option ℤ → Type 0
VlanFits none = Unit {0}
VlanFits (some v) = Between (pos 0) (pos 0xfff) v

-- What `validate` asks of a configuration, as ranges.
pub record IsConfig (c : MasterConfig) : Type 0 where
  pub named : c.interface_given ≡ true
  pub ranges : InRanges c.profile c
  pub identity : IdentityFits c.identity
  pub mac : length c.mac ≡ 6
  pub vlan : VlanFits c.vlan
  pub pcp : Between (pos 0) (pos 7) c.pcp
  pub transport : Between (pos 0) (pos 0xf) c.transport
  pub announce_flags : Between (pos 0) (pos 0xffff) c.announce_flags
  pub sync_flags : Between (pos 0) (pos 0xffff) c.sync_flags
  pub follow_up_flags : Between (pos 0) (pos 0xffff) c.follow_up_flags
  pub delay_resp_flags : Between (pos 0) (pos 0xffff) c.delay_resp_flags
  pub port : Between (pos 0) (pos 0xffff) c.port
  pub gap : pos 0 ≤ℤ c.follow_up_gap
  pub slaves : pos 1 ≤ℤ c.max_slaves
  pub rate : pos 0 ≤ℤ c.delay_resp_rate_limit
  pub overrides : validate_overrides c.message_overrides ≡ ok tt

ranges_iff : (p : Profile) (c : MasterConfig) → (check_ranges c p ≡ ok tt) ↔ InRanges p c
unfolding check_ranges
ranges_iff g82751 c = (λ h. ground arith, λ h. ground arith)
ranges_iff ieee1588v2 c = (λ h. ground arith, λ h. ground arith)
ranges_iff unknown_profile c = (λ h. cc, λ h. absurd h)

pub identity_iff : (i : Option Bytes) → (check_identity i ≡ ok tt) ↔ IdentityFits i
unfolding check_identity
identity_iff none = (λ h. tt, λ h. refl)
identity_iff (some b) = (
  λ h. (ground arith, λ e. ground (arith, bytes_eq_refl all_ff)),
  λ h. ground (arith, bytes_eq→eq b all_ff),
)

pub vlan_iff : (v : Option ℤ) → (check_vlan v ≡ ok tt) ↔ VlanFits v
unfolding check_vlan
vlan_iff none = (λ h. tt, λ h. refl)
vlan_iff (some v) = (λ h. ground arith, λ h. ground arith)

within_iff : (lo hi v : ℤ) → (within lo hi v ≡ true) ↔ Between lo hi v
within_iff lo hi v = (λ h. ground arith, λ h. ground arith)

pub passed :
    {call rest : Result (Unit {0})} → call >> rest ≡ ok tt → (call ≡ ok tt) × (rest ≡ ok tt)
passed {call = err e} raised = ground arith
passed {call = ok u} done = (refl, done)

both : {call rest : Result (Unit {0})} → call ≡ ok tt → rest ≡ ok tt → call >> rest ≡ ok tt
both {call = err e} raised done = ground arith
both {call = ok u} first done = done

holds : {b : Bool} → (check b value_error ≡ ok tt) ↔ (b ≡ true)
holds {b = true} = (λ h. refl, λ h. refl)
holds {b = false} = (λ h. ground arith, λ h. ground arith)

between : (lo hi v : ℤ) → (check (within lo hi v) value_error ≡ ok tt) ↔ Between lo hi v
between lo hi v = (λ h. (within_iff lo hi v).0 (holds.0 h), λ h. holds.1 ((within_iff lo hi v).1 h))

at_least : (lo v : ℤ) → (check (leb_ℤ lo v) value_error ≡ ok tt) ↔ (lo ≤ℤ v)
at_least lo v = (λ h. ground arith, λ h. ground arith)

sized : (b : Bytes) (n : ℕ) → (check (length b == n) value_error ≡ ok tt) ↔ (length b ≡ n)
sized b n = (λ h. ground arith, λ h. ground arith)

pub validate_iff : (c : MasterConfig) → (validate c ≡ ok tt) ↔ IsConfig c
unfolding validate
validate_iff c = (
  λ h.
      let (named, h) = passed h in
      let (ranges, h) = passed h in
      let (identity, h) = passed h in
      let (mac, h) = passed h in
      let (vlan, h) = passed h in
      let (pcp, h) = passed h in
      let (transport, h) = passed h in
      let (announce, h) = passed h in
      let (sync, h) = passed h in
      let (follow_up, h) = passed h in
      let (delay_resp, h) = passed h in
      let (port, h) = passed h in
      let (gap, h) = passed h in
      let (slaves, h) = passed h in
      let (rate, h) = passed h in
      record {
        named = holds.0 named;
        ranges = (ranges_iff c.profile c).0 ranges;
        identity = (identity_iff c.identity).0 identity;
        mac = (sized c.mac 6).0 mac;
        vlan = (vlan_iff c.vlan).0 vlan;
        pcp = (between (pos 0) (pos 7) c.pcp).0 pcp;
        transport = (between (pos 0) (pos 0xf) c.transport).0 transport;
        announce_flags = (between (pos 0) (pos 0xffff) c.announce_flags).0 announce;
        sync_flags = (between (pos 0) (pos 0xffff) c.sync_flags).0 sync;
        follow_up_flags = (between (pos 0) (pos 0xffff) c.follow_up_flags).0 follow_up;
        delay_resp_flags = (between (pos 0) (pos 0xffff) c.delay_resp_flags).0 delay_resp;
        port = (between (pos 0) (pos 0xffff) c.port).0 port;
        gap = (at_least (pos 0) c.follow_up_gap).0 gap;
        slaves = (at_least (pos 1) c.max_slaves).0 slaves;
        rate = (at_least (pos 0) c.delay_resp_rate_limit).0 rate;
        overrides = h;
      },
  λ w. both (holds.1 w.named) (
      both ((ranges_iff c.profile c).1 w.ranges) (
        both ((identity_iff c.identity).1 w.identity) (
          both ((sized c.mac 6).1 w.mac) (
            both ((vlan_iff c.vlan).1 w.vlan) (
              both ((between (pos 0) (pos 7) c.pcp).1 w.pcp) (
                both ((between (pos 0) (pos 0xf) c.transport).1 w.transport) (
                  both ((between (pos 0) (pos 0xffff) c.announce_flags).1 w.announce_flags) (
                    both ((between (pos 0) (pos 0xffff) c.sync_flags).1 w.sync_flags) (
                      both ((between (pos 0) (pos 0xffff) c.follow_up_flags).1 w.follow_up_flags) (
                        both
                          ((between (pos 0) (pos 0xffff) c.delay_resp_flags).1 w.delay_resp_flags)
                          (both ((between (pos 0) (pos 0xffff) c.port).1 w.port) (
                            both ((at_least (pos 0) c.follow_up_gap).1 w.gap) (
                              both ((at_least (pos 1) c.max_slaves).1 w.slaves) (
                                both ((at_least (pos 0) c.delay_resp_rate_limit).1 w.rate)
                                  w.overrides)))))))))))))),
)
