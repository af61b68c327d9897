-- ===== src/Master/Node.antt =====
-- src/ptp_client/ptp/l2master/master.py: the state of a started PtpL2Master, how it frames a
-- message, and its runtime reconfiguration. `start` opens the transport and sets the source port
-- before it starts the three loops, so both are given. A method that can raise after it has
-- changed the state returns the state beside its result. The transport's `send` is an argument
-- that says whether the call went through; frames that did are kept in `wire`, newest first.
pub mod Invariant
pub mod Update
use ptp_client.Prelude.{
  ℕ, ◌+◌, ◌*◌, pos_part, ◌%◌, ◌^◌, ◌++◌, List, [], ◌∷◌, take, drop, length, ◌==◌, ℤ, pos, Bool,
  true, false, if◌then◌else◌, Option, none, some, Result, ok, err, value_error, type_error,
  os_error, check, ◌>>=◌, ◌>>◌,
}
use ptp_client.Wire.{Bytes}
use ptp_client.Header.{PortIdentity, port_identity, PtpHeader}
use ptp_client.Master.Config.{
  MasterConfig, MessageKey, Value, null, int, octets, dst_mac, vlan_id, vlan_pcp, port_number,
  effective, effective_clock_identity, validate, as_int, as_octets, as_optional, as_priority,
}
use ptp_client.Master.Session.{SessionTable, session_table}
use ptp_client.Master.Scheduler.{interval_sec}
use ptp_client.Master.Transport.{build_ethernet_frame, ethertype_ptp}

pub data MasterState : Type 0 where
  init listening active fault stopped : MasterState

pub record MasterStats : Type 0 where
  pub state : MasterState
  pub announce_sent : ℕ
  pub sync_sent : ℕ
  pub follow_up_sent : ℕ
  pub delay_req_recv : ℕ
  pub delay_resp_sent : ℕ
  pub delay_resp_dropped : ℕ
  pub rx_bad_version : ℕ
  pub rx_other_domain : ℕ
  pub rx_other_type : ℕ
  pub rx_parse_errors : ℕ
  pub session_overflow : ℕ
  pub resp_queue_full : ℕ
  pub tx_errors : ℕ

-- _RespItem
pub record RespItem : Type 0 where
  pub request : PtpHeader
  pub received_ns : ℕ
  pub sender : Bytes

pub record Master : Type 0 where
  pub cfg : MasterConfig
  pub stats : MasterStats
  pub resp_queue : List RespItem
  pub sessions : SessionTable
  pub src_mac : Bytes
  pub seq_announce : ℕ
  pub seq_sync : ℕ
  pub interval_gen : ℕ
  pub source_port : PortIdentity
  pub wire : List Bytes

-- queue.Queue(maxsize=1024)
abbrev pub resp_queue_size : ℕ
resp_queue_size = 1024

unfoldable pub clock_identity_from_mac : Bytes → Result Bytes
clock_identity_from_mac mac =
    if length mac == 6 then ok (take 3 mac ++ (0xff ∷ 0xfe ∷ drop 3 mac)) else err value_error

unfoldable pub fresh_stats : MasterState → MasterStats
fresh_stats state = record {
  state = state;
  announce_sent = 0;
  sync_sent = 0;
  follow_up_sent = 0;
  delay_req_recv = 0;
  delay_resp_sent = 0;
  delay_resp_dropped = 0;
  rx_bad_version = 0;
  rx_other_domain = 0;
  rx_other_type = 0;
  rx_parse_errors = 0;
  session_overflow = 0;
  resp_queue_full = 0;
  tx_errors = 0;
}

-- MasterConfig.session_timeout_sec, in nanoseconds, of an announce_receipt_timeout that is not
-- negative.
unfoldable pub session_timeout : MasterConfig → ℕ
session_timeout c = pos_part c.announce_receipt_timeout * interval_sec c.log_announce_interval * 2

-- The clock identity of a master on the address `mac`.
unfoldable pub own_identity : Option Bytes → Bytes → Result Bytes
own_identity none mac = clock_identity_from_mac mac
own_identity (some identity) mac = ok identity

-- The state in which the loops start.
unfoldable pub launched : MasterConfig → Bytes → PortIdentity → Master
launched c mac source = record {
  cfg = c;
  stats = fresh_stats listening;
  resp_queue = [];
  sessions =
      session_table (pos_part c.max_slaves) (pos_part c.delay_resp_rate_limit) (session_timeout c);
  src_mac = mac;
  seq_announce = 0;
  seq_sync = 0;
  interval_gen = 0;
  source_port = source;
  wire = [];
}

-- `__init__` and `start`, where the transport opens on the address `mac`.
unfoldable pub started : MasterConfig → Bytes → Result Master
started c mac = do
  validate c
  identity ← own_identity c.identity mac
  source ← port_identity identity c.port
  ok (launched c mac source)

-- _source_for
unfoldable pub source_for : Master → MessageKey → Result PortIdentity
source_for m key = do
  port ← as_int (effective m.cfg key port_number)
  elim (effective_clock_identity m.cfg key) [
    | none ↦ port_identity m.source_port.clock_identity port
    | some identity ↦ port_identity identity port
  ]

-- The frame that _send_frame hands to the transport.
unfoldable pub frame_for : Master → Bytes → MessageKey → Option Bytes → Result Bytes
frame_for m payload key dst = do
  target ← elim dst [ some mac ↦ ok mac | none ↦ as_octets (effective m.cfg key dst_mac) ]
  vlan ← as_optional (effective m.cfg key vlan_id)
  pcp ← as_priority vlan (effective m.cfg key vlan_pcp)
  build_ethernet_frame target m.src_mac payload ethertype_ptp vlan pcp

-- A change of one field: one of _IMMUTABLE_FIELDS, one that MasterConfig does not have, or the
-- assignment of a new value.
pub data Change : Type 0 where
  immutable unknown : Change
  assign : (MasterConfig → MasterConfig) → Change

unfoldable pub has_immutable : List Change → Bool
has_immutable [] = false
has_immutable (immutable ∷ rest) = true
has_immutable (_ ∷ rest) = has_immutable rest

-- dataclasses.replace(cfg, **patch)
unfoldable pub replaced : List Change → MasterConfig → Result MasterConfig
replaced [] c = ok c
replaced (assign set ∷ rest) c = replaced rest (set c)
replaced (_ ∷ rest) c = err type_error

-- The source port under a new configuration; without an identity there, the identity stays.
unfoldable pub new_source : Master → Option Bytes → ℤ → Result PortIdentity
new_source m none port = port_identity m.source_port.clock_identity port
new_source m (some identity) port = port_identity identity port

unfoldable pub reconfigured : Master → MasterConfig → Result Master
reconfigured m c = do
  source ← new_source m c.identity c.port
  ok (record m { cfg = c; source_port = source; interval_gen = m.interval_gen + 1 })

-- Nothing is assigned to the running master before the new configuration is valid.
unfoldable pub apply_runtime_update : Master → List Change → Result Master
apply_runtime_update m [] = ok m
apply_runtime_update m (change ∷ rest) =
    if has_immutable (change ∷ rest)
    then err value_error
    else (do c ← replaced (change ∷ rest) m.cfg; validate c; reconfigured m c)
