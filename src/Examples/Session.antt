-- ===== src/Examples/Session.antt =====
-- The session table at concrete inputs.
use ptp_client.Prelude.{ℕ, ◌≢◌, ◌≤◌, ◌+◌, ◌*◌, refl, [], ◌∷◌, arith, pos, bytes_eq, eq_ℤ}
use ptp_client.Header.{PortIdentity}
use ptp_client.Wire.{Bytes}
use ptp_client.Master.Session.{SessionTable, token, fresh_session, get, key_eq, register_or_touch}
use ptp_client.Master.Session.Table.{IsTable}
use ptp_client.Master.Session.Register.{Admits, register_or_touch_lem}
use ptp_client.Master.Session.Bucket.{granted, granted_rate}

abbrev port : ℕ → PortIdentity
port n = record { clock_identity = 1 ∷ 2 ∷ 3 ∷ 4 ∷ 5 ∷ 6 ∷ 7 ∷ 8 ∷ []; port_number = pos n }

abbrev mac : Bytes
mac = 2 ∷ 0 ∷ 0 ∷ 0 ∷ 0 ∷ 1 ∷ []

abbrev full : SessionTable
full = record {
  max_slaves = 2;
  session_timeout = 100;
  bucket = record { rate = 1; capacity = token };
  sessions = fresh_session (port 1) mac 500 ∷ fresh_session (port 2) mac 450 ∷ [];
  overflow_count = 0;
}

full-IsTable : IsTable full
unfolding get key_eq bytes_eq eq_ℤ
full-IsTable = record {
  positive = omega arith;
  bounded = omega arith;
  distinct = (refl, (refl, tt));
}

register_or_touch_lem_example :
    Admits full (port 3) mac 510 (register_or_touch full (port 3) mac 510)
register_or_touch_lem_example = register_or_touch_lem full (port 3) mac 510 full-IsTable

abbrev wide : SessionTable
wide = record full { max_slaves = 3 }

different : port 3 ≢ port 1
different e = ground arith

granted_rate_example :
    granted full.bucket (fresh_session (port 1) mac 500) (500 ∷ 600 ∷ 700 ∷ []) * token + 500 * 1
    ≤ token + 700 * 1
granted_rate_example =
    granted_rate full.bucket (fresh_session (port 1) mac 500) 500 (600 ∷ 700 ∷ []) (omega arith)
      (omega arith) refl (omega arith) (omega arith)
