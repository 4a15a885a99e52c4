-- ===== src/MainLoop/Relaying/Tests.antt =====
-- An engineer's datagram with a byte of noise and two signed messages.
use udpproxy.Prelude.{ℕ, ◌+◌, ◌≡◌, refl, true, false, none, some, List, [], ◌∷◌, arith, length}
use udpproxy.Message.{Message}
use udpproxy.Database.Tests.Store.{records_tdb}
use udpproxy.Link.Relay.{Relay, relay}
use udpproxy.Link.Tests.{dialect, wire, round, relaying}
use udpproxy.MainLoop.{Pair, Session, Relayed, new_session, new_slot}
use udpproxy.MainLoop.Engineers.{engineer_messages}
use udpproxy.MainLoop.Relaying.{trace, heards, Follows}
use udpproxy.MainLoop.Relaying.Accounts.{IsAccounted, relay_refines}
use udpproxy.Slots.{Address, user_udp}
use udpproxy.Tlog.{TlogFile, Heard}
use udpproxy.Tlog.Reading.{entries, log_bytes}

abbrev to_buffer : Message → List ℕ
to_buffer m = m.msgid ∷ m.payload

abbrev pair : Pair dialect to_buffer
pair = record {
  setup = record {
    tlog_enabled = true;
    binlog_enabled = true;
    port2 = 10006;
    session_n = 3;
    side = user_udp;
  };
  bidi = false;
  fc_sysid = 0;
  pid = 4711;
}

abbrev nobody : Address
nobody = record { ip = 0; port = 0; len = 0 }

abbrev fresh : Session dialect to_buffer
fresh = new_session dialect to_buffer pair (some 4) (some 5) none (some 7) nobody false

abbrev log : TlogFile
log = record { port2 = 10006; date = b'2' ∷ []; session_n = 3; content = [] }

-- One slot is enough.
abbrev start : Session dialect to_buffer
start = record fresh {
  loop = record (fresh.loop) {
    tlog = some log;
    table = record { slots = new_slot nobody ∷ []; conn2_count = 1; max_conn2_count = 1 };
  };
}

abbrev hear : ℕ → Message → Heard to_buffer
hear n m = record {
  msg = m;
  host = record { date = b'2' ∷ []; mkdir_ok = true; fopen_content = some [] };
  clock = record {
    now = 1_700_000_000_000_000 + n;
    header_written = 8;
    frame_written = length (to_buffer m);
  };
}

abbrev datagram : List ℕ
datagram = 0 ∷ 33 ∷ 35 ∷ []

abbrev seen : List (Relayed dialect to_buffer)
seen = trace dialect to_buffer records_tdb pair wire (λ n. round) hear 3 datagram relaying

relay_refines_example :
    (r' : Relay dialect records_tdb wire) × (relay dialect records_tdb wire
        (λ n. round)
        3
        datagram
        relaying
      ≡ some r')
    × Follows dialect to_buffer records_tdb pair wire 0 seen start relaying r'
        (engineer_messages dialect to_buffer records_tdb pair 0 seen start)
    × IsAccounted dialect to_buffer records_tdb pair wire 0 seen start 0
        (engineer_messages dialect to_buffer records_tdb pair 0 seen start)
    × ((engineer_messages dialect to_buffer records_tdb pair 0 seen start).1.loop.tlog
        ≡ some (record log {
          content =
              log_bytes (entries to_buffer (heards dialect to_buffer records_tdb pair wire seen));
        }))
unfolding new_session new_slot
relay_refines_example =
    relay_refines dialect to_buffer records_tdb pair wire (λ n. round) hear (λ n m. refl)
      (λ n m. (omega arith, refl, refl)) 0 3 datagram start relaying log (omega arith)
      (record { tx = refl; rx = refl }) (record { rx = omega arith; tx = omega arith; goes = refl })
      refl refl
