-- ===== src/UserLoop/Tests.antt =====
-- A heartbeat, a block and a block's status of the user, with one engineer.
use udpproxy.Prelude.{ℕ, true, false, none, some, List, [], ◌∷◌, take}
use udpproxy.Message.{Message, Dialect}
use udpproxy.Binlog.Writer.{new_writer}
use udpproxy.Slots.{Slot, user_tcp}
use udpproxy.UserLoop.{Incoming, Setup, State}

abbrev pub dialect : Dialect
dialect = record {
  id_heartbeat = 0;
  id_system_time = 2;
  id_setup_signing = 256;
  id_remote_log_data_block = 184;
  id_remote_log_block_status = 185;
  comp_id_autopilot1 = 1;
  block_start = 2147483646;
  status_ack = 1;
  status_nack = 0;
  decode_block = λ m. record { seqno = 0; bytes = take 200 m.payload };
  decode_time_boot_ms = λ m. 0;
  decode_setup_signing = λ m. record { secret_key = m.payload; initial_timestamp = 0 };
}

abbrev pub to_buffer : Message → List ℕ
to_buffer m = m.payload

abbrev pub incoming : ℕ → Incoming dialect to_buffer
incoming id = record {
  heard = record {
    msg = record {
      msgid = id;
      sysid = 1;
      compid = 1;
      seq = 0;
      incompat_flags = 0;
      payload = 3 ∷ 7 ∷ 8 ∷ [];
      signature = [];
    };
    host = record { date = b'2' ∷ []; mkdir_ok = true; fopen_content = some [] };
    clock = record { now = 1_700_000_000_000_000; header_written = 8; frame_written = 3 };
  };
  host = record {
    mkdir_ok = true;
    fopen_inode = some 77;
    tree_at_open = none;
    seek_ok = true;
    wrote = 200;
    tree = none;
    now = 5_000_000;
  };
  names = none;
  sent = λ i. true;
}

abbrev pub flight : List (Incoming dialect to_buffer)
flight = incoming 0 ∷ incoming 184 ∷ incoming 185 ∷ []

abbrev pub setup : Setup dialect to_buffer
setup = record {
  tlog_enabled = true;
  binlog_enabled = true;
  port2 = 10006;
  session_n = 3;
  side = user_tcp;
}

abbrev pub engineer : Slot
engineer = record {
  sock = some 9;
  used = true;
  tcp_active = true;
  has_ws = false;
  from = record { ip = 1; port = 2; len = 16 };
  is_udp = false;
  last_pkt = 0;
  connected_at = 0;
  rx_msgs = 0;
  tx_msgs = 0;
}

abbrev pub start : State dialect to_buffer
start = record {
  tlog = none;
  binlog = new_writer;
  table = record { slots = engineer ∷ []; conn2_count = 1; max_conn2_count = 1 };
  mav1_rx_msgs = 0;
  passed = [];
}
