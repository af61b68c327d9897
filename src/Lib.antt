-- ===== src/Lib.antt =====
-- A verification library for ptp_client: the IEEE 1588 codecs, the unicast-negotiation TLVs and the
-- layer-2 grandmaster of src/ptp_client/ptp.
--
-- The program. PTP messages are 34-octet headers with a body (ptp/header.py, ptp/timestamp.py,
-- ptp/packet.py). The layer-2 grandmaster (ptp/l2master) answers a configuration (config.py) with
-- three loops over one socket: the TX loop sends Announce and Sync with Follow_Up on the deadlines of
-- two schedulers (scheduler.py), the RX loop filters what comes in and registers the senders of
-- Delay_Req in the session table (session.py), which limits their rate, and queues the requests, and
-- the RESP loop answers them (master.py). Frames are built and parsed by transport.py, message
-- contents by messages.py. The unicast client buffers what it receives (ptp/client.py) and negotiates
-- with the TLVs of ptp/signaling.py (ptp/g82752_unicast.py). The NTP client has a packet codec of its own (ntp/packet.py).
--
-- Files and the code they model, with paths below src/ptp_client.
--   Prelude (Tests, Lists, Int, Errors): shared notation and lemmas. Integers of Python are the
--     integers here, `&` with an all-ones mask is `mask`, a raised exception is `err`.
--   Wire: struct.pack and struct.unpack_from of the formats that the codecs use, on lists of octets.
--   Timestamp: ptp/timestamp.py. Header: ptp/header.py, ptp/constants.py. Packet: ptp/packet.py.
--   Signaling: ptp/signaling.py, the TLV builders and parsers, extract_grants_from_signaling_udp,
--     build_signaling_udp_payload and build_signaling_message. `unpack_from` behind a length test is a
--     match on four octets.
--   Client: ptp/client.py, class PTPAcrUnicastClient. Client itself is the buffer behind
--     _ingest_ptp_datagram; Client.World is its state, _receiver_loop and _pop_matching_general;
--     Client.Sync is wait_sync_sample with _try_sync_sample_follow_up_led; Client.Exchange is
--     exchange_delay, estimate_offset_and_delay, start and close.
--   Request: ptp/request_builder.py. A specification is a record of the keys that are looked up.
--     Request.Delay: ptp/delay_request.py, build_delay_request_spec.
--   Negotiation: ptp/g82752_unicast.py, class G82752UnicastSession. Negotiation itself collects grants
--     and makes the attempts; Negotiation.Phases is negotiate, the renewals and cancel_unicast;
--     Negotiation.Measure is measure_acr and what _manager_loop runs.
--   Ntp: ntp/packet.py, the codec of NTPTime and NTPPacket.
--   Capture: ntp/pcap.py, build_ipv4_udp_datagram and the checksums.
--   Master.Messages: ptp/l2master/messages.py, with the keyword arguments that the builders share in
--     the record `Common`.
--   Master.Transport: ptp/l2master/transport.py, build_ethernet_frame and _parse_ethernet_frame.
--   Master.Session: ptp/l2master/session.py. The dictionary is a list in insertion order.
--   Master.Scheduler: ptp/l2master/scheduler.py.
--   Master.Config: ptp/l2master/config.py, MasterConfig with `effective` and `validate`.
--     Master.Config.Jsonc: its _strip_jsonc_comments, _strip_trailing_commas and address parsers.
--   Master.Node, Receive, Transmit, Loop: ptp/l2master/master.py, class PtpL2Master. Node is its
--     state, start and apply_runtime_update; Receive is _handle_frame, _send_delay_resp and a turn of
--     _resp_loop; Transmit is _send_announce and _send_sync_pair; Loop is a turn of _tx_loop.
--   Master.Run: interleavings of these calls, as a step relation.
--   Examples: the properties at concrete inputs.
--
-- Units and bounds. Times are nanoseconds, in the source floating-point seconds: an interval of
-- 2 ** k seconds is a whole number of them for every k that a configuration may have. Tokens are
-- counted in 1e-9 tokens, which makes the refill of a bucket a whole number. The queue of requests is
-- bounded by 1024 as in the source. The fuel of iter_tlvs is the number of octets of the payload, and
-- that of the loops of wait_sync_sample and of measure_acr with its sleep the number of ticks to come: a
-- turn of the sleep takes a tick, and every round but the last sleeps. More gives the same result.
--
-- The unicast client runs beside a receiver thread. What the two see is a list of ticks: each is one
-- turn of a waiting loop, with the datagrams that arrived since the last, the clocks, and whether a
-- stop was asked for by then. Every finite run is such a list; behind its last tick all deadlines have
-- passed, and a measurement is asked to stop. A reading of the clock that only fixes a deadline is that
-- of the last tick. The offset and delay are kept doubled, since the source halves them.
--
-- What stands outside. The clock, the transport and the waits are arguments: what a clock reads,
-- whether `send` takes a frame or raises OSError, and whether a stop is requested during a wait. An
-- observer that is told of each frame, logging, threads and their joins, sockets and the pcap driver
-- are not modelled. A runtime update in the middle of one send is not modelled: each call is one
-- step. Sockets of the client take what they are given. Of the rest
-- of the package, the web laboratory, the command lines, the NTP client, the records of
-- capture files and the dictionaries of configurations are not modelled.
pub mod Prelude
pub mod Wire
pub mod Timestamp
pub mod Header
pub mod Packet
pub mod Signaling
pub mod Client
pub mod Ntp
pub mod Capture
pub mod Request
pub mod Negotiation
pub mod Master
mod Examples
