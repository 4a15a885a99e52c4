-- ===== src/UserLoop/Guarded/Tests.antt =====
-- A user's datagram with a byte of noise and two signed messages.
use udpproxy.Prelude.{ℕ, ◌≡◌, refl, true, none, some, List, [], ◌∷◌, arith}
use udpproxy.Message.{Message}
use udpproxy.Binlog.Writer.{new_writer}
use udpproxy.Database.Tests.Store.{records_tdb, after}
use udpproxy.Link.Hear.{Ear, Hearing, hear_all}
use udpproxy.Link.Tests.{dialect, wire, engineer, env}
use udpproxy.Slots.{user_udp}
use udpproxy.UserLoop.{Incoming, Setup, State}
use udpproxy.UserLoop.Guarded.{OnlySigned, incoming_of, user_messages-OnlySigned}

abbrev to_buffer : Message → List ℕ
to_buffer m = m.payload

abbrev answer : ℕ → Message → Incoming dialect to_buffer
answer n m = record {
  heard = record {
    msg = m;
    host = record { date = b'2' ∷ []; mkdir_ok = true; fopen_content = some [] };
    clock = record { now = 1_700_000_000_000_000; header_written = 8; frame_written = 3 };
  };
  host = record {
    mkdir_ok = true;
    fopen_inode = some 77;
    tree_at_open = none;
    seek_ok = true;
    wrote = 200;
    tree = none;
    now = 5_000_000;
  };
  names = none;
  sent = λ i. true;
}

abbrev setup : Setup dialect to_buffer
setup = record {
  tlog_enabled = true;
  binlog_enabled = true;
  port2 = 10006;
  session_n = 3;
  side = user_udp;
}

abbrev start : State dialect to_buffer
start = record {
  tlog = none;
  binlog = new_writer;
  table = record { slots = []; conn2_count = 0; max_conn2_count = 0 };
  mav1_rx_msgs = 0;
  passed = [];
}

abbrev ear : Ear dialect records_tdb wire
ear = record { env = env; stamps = 30_000_001_000_000 ∷ []; db = after }

-- A link of port 10006 with its key.
abbrev listening : Hearing dialect records_tdb wire
listening = record { db = after; parser = 0; link = engineer; heard = [] }

abbrev datagram : List ℕ
datagram = 0 ∷ 33 ∷ 35 ∷ []

user_messages-OnlySigned_example :
    (h' : Hearing dialect records_tdb wire) × (hear_all dialect records_tdb wire
        (λ n. ear)
        3
        datagram
        listening
      ≡ some h')
    × OnlySigned dialect to_buffer records_tdb wire setup start
        (incoming_of dialect to_buffer answer 0 h'.heard)
user_messages-OnlySigned_example =
    user_messages-OnlySigned dialect to_buffer records_tdb wire answer (λ n m. refl) setup start
      (λ n. ear) 3 datagram listening (omega arith) (record { key = refl; all = tt })
