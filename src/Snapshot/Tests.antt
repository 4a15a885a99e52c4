-- ===== src/Snapshot/Tests.antt =====
-- A snapshot of the user and two engineers.
use udpproxy.Prelude.{true, false, none, some, [], ◌∷◌}
use udpproxy.Slots.{Address, Slot, Table}
use udpproxy.Snapshot.{User, View}

abbrev peer : Address
peer = record { ip = 16777343; port = 4660; len = 16 }

abbrev user : User
user = record {
  connected_at = 1_700_000_000;
  rx_msgs = 10;
  tx_msgs = 20;
  peer = peer;
  ws_ssl = some true;
  is_tcp = true;
}

abbrev engineer : Slot
engineer = record {
  sock = none;
  used = true;
  tcp_active = true;
  has_ws = false;
  from = peer;
  is_udp = true;
  last_pkt = 0;
  connected_at = 1_700_000_100;
  rx_msgs = 1;
  tx_msgs = 2;
}

abbrev table : Table
table = record {
  slots = engineer ∷ record engineer { used = false } ∷ engineer ∷ [];
  conn2_count = 2;
  max_conn2_count = 3;
}

abbrev view : View
view = record {
  user = some user;
  table = table;
  slot_ssl = λ i. false;
  port2 = 10006;
  pid = 4242;
  now = 1_700_000_200;
}
