-- ===== src/Tlog/Tests.antt =====
-- Messages that are logged, with frames whose first byte is their length.
use udpproxy.Prelude.{ℕ, ◌≡◌, refl, true, none, some, List, [], ◌∷◌, arith, length, get_or}
use udpproxy.Message.{Message}
use udpproxy.Tlog.{TlogFile, Host, Heard, log_messages}
use udpproxy.Tlog.Reading.{read_tlog, entries, log_messages-read_tlog}

abbrev to_buffer : Message → List ℕ
to_buffer m = m.payload

abbrev host : Host
host = record { date = b'2' ∷ []; mkdir_ok = true; fopen_content = some [] }

abbrev heard : ℕ → List ℕ → Heard to_buffer
heard now frame = record {
  msg = record {
    msgid = 0;
    sysid = 1;
    compid = 1;
    seq = 0;
    incompat_flags = 0;
    payload = frame;
    signature = [];
  };
  host = host;
  clock = record { now = now; header_written = 8; frame_written = length frame };
}

abbrev first : Heard to_buffer
first = heard 1_700_000_000_000_000 (3 ∷ 7 ∷ 8 ∷ [])

abbrev second : Heard to_buffer
second = heard 1_700_000_000_000_900 (2 ∷ 9 ∷ [])

log_messages-read_tlog_example :
    (f : TlogFile) × (log_messages to_buffer true 10006 4 (first ∷ second ∷ []) none ≡ some f)
    × (f.port2 ≡ 10006)
    × (f.session_n ≡ 4)
    × (read_tlog (λ bs. get_or bs 0 0) 2 f.content ≡ entries to_buffer (first ∷ second ∷ []))
log_messages-read_tlog_example =
    log_messages-read_tlog to_buffer (λ bs. get_or bs 0 0) 10006 4 first (second ∷ []) refl refl
      ((omega arith, refl, refl), ((omega arith, refl, refl), tt))
      ((omega arith, λ rest. refl), ((omega arith, λ rest. refl), tt))
