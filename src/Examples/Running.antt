-- ===== src/Examples/Running.antt =====
-- A master on a laboratory network at concrete inputs.
use ptp_client.Prelude.{◌≡◌, refl, arith, [], ◌∷◌, pos, negsuc, true, false, none, some, ok}
use ptp_client.Wire.{Bytes}
use ptp_client.Timestamp.{PtpTimestamp}
use ptp_client.Header.{PortIdentity, sync, follow_up}
use ptp_client.Packet.{parse_sync_body, parse_follow_up_body}
use ptp_client.Master.Config.{
  MasterConfig, g82751, dst_mac, sync_key, object, octets, effective, validate_overrides,
  validate_fields, validate_override_value,
}
use ptp_client.Master.Config.Valid.{IsConfig}
use ptp_client.Master.Config.Effective.{Fits, effective-Fits}
use ptp_client.Master.Transport.{ReceivedFrame}
use ptp_client.Master.Node.{Master, RespItem, assign, started, active}
use ptp_client.Master.Node.Invariant.{IsMaster, FrameFits, ItemFits, Keeps, Accounted}
use ptp_client.Master.Node.{apply_runtime_update}
use ptp_client.Master.Node.Update.{Updated, apply_runtime_update_lem}
use ptp_client.Master.Receive.{handle_frame, resp_step, delay_resp_frame}
use ptp_client.Master.Receive.Accounting.{handle_frame-Keeps}
use ptp_client.Master.Receive.Answer.{Answers, delay_resp_frame_lem}
use ptp_client.Master.Receive.Turn.{resp_step-Keeps}
use ptp_client.Master.Transmit.{send_sync_pair}
use ptp_client.Master.Transmit.Pair.{Delivers, undisturbed, send_sync_pair_lem}
use ptp_client.Master.Run.{Steps, run_sound}

abbrev mac : Bytes
mac = 2 ∷ 0 ∷ 0 ∷ 0 ∷ 0 ∷ 1 ∷ []

abbrev slave_mac : Bytes
slave_mac = 2 ∷ 0 ∷ 0 ∷ 0 ∷ 0 ∷ 9 ∷ []

abbrev group_mac : Bytes
group_mac = 1 ∷ 0x1b ∷ 0x19 ∷ 0 ∷ 0 ∷ 0 ∷ []

abbrev identity : Bytes
identity = 2 ∷ 0 ∷ 0 ∷ 0xff ∷ 0xfe ∷ 0 ∷ 0 ∷ 1 ∷ []

-- A two-step clock on a VLAN, which sends its Sync messages to an address of their own.
abbrev lab : MasterConfig
lab = record {
  interface_given = true;
  offline = false;
  profile = g82751;
  domain = pos 24;
  identity = some identity;
  port = pos 1;
  priority1 = pos 128;
  priority2 = pos 128;
  clock_class = pos 6;
  clock_accuracy = pos 33;
  offset_scaled_log_variance = pos 20061;
  time_source = pos 32;
  current_utc_offset = pos 37;
  log_announce_interval = negsuc 2;
  log_sync_interval = negsuc 3;
  two_step = true;
  follow_up_gap = pos 0;
  transport = pos 0;
  announce_flags = pos 8;
  sync_flags = pos 0;
  follow_up_flags = pos 0;
  delay_resp_flags = pos 0;
  vlan = some (pos 100);
  pcp = pos 4;
  mac = group_mac;
  announce_receipt_timeout = pos 3;
  delay_resp_unicast = true;
  max_slaves = pos 2;
  delay_resp_rate_limit = pos 16;
  header_link = false;
  message_overrides = (sync_key, object ((dst_mac, octets slave_mac) ∷ [])) ∷ [];
}

lab-IsConfig : IsConfig lab
unfolding validate_overrides validate_fields validate_override_value
lab-IsConfig = record {
  named = refl;
  ranges = ((omega arith, omega arith), (omega arith, omega arith), (omega arith, omega arith));
  identity = (refl, λ e. ground arith);
  mac = refl;
  vlan = (omega arith, omega arith);
  pcp = (omega arith, omega arith);
  transport = (omega arith, omega arith);
  announce_flags = (omega arith, omega arith);
  sync_flags = (omega arith, omega arith);
  follow_up_flags = (omega arith, omega arith);
  delay_resp_flags = (omega arith, omega arith);
  port = (omega arith, omega arith);
  gap = omega arith;
  slaves = omega arith;
  rate = omega arith;
  overrides = refl;
}

effective-Fits_example : Fits dst_mac (effective lab sync_key dst_mac)
effective-Fits_example = effective-Fits lab sync_key dst_mac lab-IsConfig (λ e. ground arith)

run_sound_example :
    (m : Master) × (started lab mac ≡ ok m)
    × ((m' : Master) → Steps m m' → IsMaster m' × Accounted m')
run_sound_example = run_sound lab mac lab-IsConfig refl

abbrev pub own_port : PortIdentity
own_port = record { clock_identity = identity; port_number = pos 1 }

abbrev pub slave_port : PortIdentity
slave_port = record { clock_identity = 9 ∷ 9 ∷ 9 ∷ 9 ∷ 9 ∷ 9 ∷ 9 ∷ 9 ∷ []; port_number = pos 7 }

-- A Delay_Req as it waits in the queue.
abbrev pub waiting : RespItem
waiting = record {
  request = record {
    message_type = pos 1;
    version_ptp = pos 2;
    message_length = pos 44;
    domain_number = pos 24;
    minor_sdo_id = pos 0;
    flags = pos 0;
    correction_field_ns = pos 0;
    source_identity = slave_port;
    sequence_id = pos 515;
    control_field = pos 1;
    log_message_interval = pos 127;
    transport_specific = pos 0;
  };
  received_ns = 1700000000000000123;
  sender = slave_mac;
}

waiting-ItemFits : ItemFits waiting
waiting-ItemFits = record { requester = omega arith; clock = omega arith; address = refl }

abbrev pub lab_master : Master
lab_master = record {
  cfg = lab;
  stats = record {
    state = active;
    announce_sent = 0;
    sync_sent = 0;
    follow_up_sent = 0;
    delay_req_recv = 1;
    delay_resp_sent = 0;
    delay_resp_dropped = 0;
    rx_bad_version = 0;
    rx_other_domain = 0;
    rx_other_type = 0;
    rx_parse_errors = 0;
    session_overflow = 0;
    resp_queue_full = 0;
    tx_errors = 0;
  };
  resp_queue = waiting ∷ [];
  sessions = record {
    max_slaves = 2;
    session_timeout = 750000000;
    bucket = record { rate = 16; capacity = 16000000000 };
    sessions = [];
    overflow_count = 0;
  };
  src_mac = mac;
  seq_announce = 0;
  seq_sync = 65535;
  interval_gen = 0;
  source_port = own_port;
  wire = [];
}

lab_master-IsMaster : IsMaster lab_master
lab_master-IsMaster = record {
  config = lab-IsConfig;
  table = record { positive = omega arith; bounded = omega arith; distinct = tt };
  source = omega arith;
  mac = refl;
  queue_bounded = omega arith;
  queue_fits = (waiting-ItemFits, tt);
}

-- A Delay_Req of `slave_port` in domain 24.
abbrev pub request_frame : ReceivedFrame
request_frame = record {
  src_mac = slave_mac;
  ethertype = 0x88f7;
  payload =
      1 ∷ 2 ∷ 0 ∷ 44 ∷ 24 ∷ 0 ∷ 0 ∷ 0 ∷ 0 ∷ 0 ∷ 0 ∷ 0 ∷ 0 ∷ 0 ∷ 0 ∷ 0 ∷ 0 ∷ 0 ∷ 0 ∷ 0 ∷ 9 ∷ 9 ∷ 9
      ∷ 9 ∷ 9 ∷ 9 ∷ 9 ∷ 9 ∷ 0 ∷ 7 ∷ 2 ∷ 4 ∷ 1 ∷ 127 ∷ 0 ∷ 0 ∷ 0 ∷ 0 ∷ 0 ∷ 0 ∷ 0 ∷ 0 ∷ 0 ∷ 0 ∷ [];
  rx_realtime_ns = 1700000000000000456;
  rx_monotonic_ns = 5000000000;
}

pub request_frame-FrameFits : FrameFits request_frame
request_frame-FrameFits = record { octets = omega arith; clock = omega arith; address = refl }

handle_frame-Keeps_example : Keeps lab_master (handle_frame lab_master request_frame)
handle_frame-Keeps_example =
    handle_frame-Keeps lab_master request_frame lab_master-IsMaster request_frame-FrameFits

delay_resp_frame_lem_example :
    (frame : Bytes) × (delay_resp_frame lab_master waiting ≡ ok frame)
    × Answers lab_master waiting 10 20 frame
delay_resp_frame_lem_example =
    delay_resp_frame_lem lab_master waiting lab_master-IsMaster waiting-ItemFits 10 20

resp_step-Keeps_example : Keeps lab_master (resp_step lab_master false)
resp_step-Keeps_example = resp_step-Keeps lab_master false lab_master-IsMaster

apply_runtime_update_lem_example :
    Updated lab_master
      (assign (λ c. record c { domain = pos 25 }) ∷ [])
      (apply_runtime_update lab_master (assign (λ c. record c { domain = pos 25 }) ∷ []))
apply_runtime_update_lem_example =
    apply_runtime_update_lem lab_master (assign (λ c. record c { domain = pos 25 })) []
      lab_master-IsMaster

abbrev pub t1 : PtpTimestamp
t1 = record { seconds = pos 1700000000; nanoseconds = pos 5 }

abbrev pub precise : PtpTimestamp
precise = record { seconds = pos 1700000000; nanoseconds = pos 905 }

send_sync_pair_lem_example :
    let o = send_sync_pair lab_master (undisturbed t1 precise) in
    (first : Bytes) × (second : Bytes) × (o ≡ record {
      master = record lab_master {
        seq_sync = 0;
        stats = record lab_master.stats { sync_sent = 1; follow_up_sent = 1; state = active };
        wire = second ∷ first ∷ [];
      };
      raised = none;
    })
    × Delivers lab_master sync 65535 parse_sync_body t1 first
    × Delivers lab_master follow_up 65535 parse_follow_up_body precise second
send_sync_pair_lem_example =
    send_sync_pair_lem lab_master t1 precise lab_master-IsMaster (omega arith) (omega arith)
      (omega arith) refl
