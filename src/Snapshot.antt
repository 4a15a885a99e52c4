-- ===== src/Snapshot.antt =====
-- The snapshot of the live connections that main_loop in supportproxy.cpp writes to connections.tdb
-- every 5 seconds, in a process of its own. Times are in seconds, but for `snap_now`.
mod Shown
mod Live
mod Tests
use udpproxy.Prelude.{
  ℕ, zero, suc, ◌+◌, Bool, true, false, ◌&&◌, Option, none, some, List, [], ◌∷◌, ltb, if◌then◌else◌,
}
use udpproxy.Slots.{Address, Slot, Table}
use udpproxy.Database.Tdb.{Tdb}
use udpproxy.Database.Connections.{ConnEntry, conn_write, conn_delete_for_port2}

abbrev pub conn_magic : ℕ
conn_magic = 0x436f6e6e45424553

-- CONN_TRANSPORT_UDP, _TCP, _WS and _WSS, by what the code tests.
pub data Transport : Type 0 where
  udp tcp ws wss : Transport

pub transport_code : Transport → ℕ
transport_code udp = 0
transport_code tcp = 1
transport_code ws = 2
transport_code wss = 3

-- The user's side: mav1_peer, its counters, `p->ws` with is_SSL, and mav1_is_tcp.
pub record User : Type 0 where
  pub connected_at : ℕ
  pub rx_msgs : ℕ
  pub tx_msgs : ℕ
  pub peer : Address
  pub ws_ssl : Option Bool
  pub is_tcp : Bool

-- What main_loop knows: have_conn1 with the user, the slots, is_SSL of a slot's WebSocket by the
-- connection index, p->port2, my_pid and time(nullptr).
pub record View : Type 0 where
  pub user : Option User
  pub table : Table
  pub slot_ssl : ℕ → Bool
  pub port2 : ℕ
  pub pid : ℕ
  pub now : ℕ

-- The transport of a connection with a WebSocket.
abbrev over_ws : Bool → Transport
over_ws is_ssl = if is_ssl then wss else ws

pub user_transport : User → Transport
user_transport u = elim u.ws_ssl [
  | some is_ssl ↦ over_ws is_ssl
  | none ↦ if u.is_tcp then tcp else udp
]

pub user_entry : View → User → ConnEntry
user_entry v u = record {
  magic = conn_magic;
  connected_at = u.connected_at;
  last_update = v.now;
  port2 = v.port2;
  conn_index = 0;
  pid = v.pid;
  rx_msgs = u.rx_msgs;
  tx_msgs = u.tx_msgs;
  peer_ip_be = u.peer.ip;
  peer_port_be = u.peer.port;
  transport = transport_code (user_transport u);
  is_user = 1;
  flags = 0;
}

pub slot_transport : Bool → Slot → Transport
slot_transport is_ssl s = if s.is_udp then udp else if s.has_ws then over_ws is_ssl else tcp

-- `conn_index` is the index of the slot and 1.
pub slot_entry : View → ℕ → Slot → ConnEntry
slot_entry v conn_index s = record {
  magic = conn_magic;
  connected_at = s.connected_at;
  last_update = v.now;
  port2 = v.port2;
  conn_index = conn_index;
  pid = v.pid;
  rx_msgs = s.rx_msgs;
  tx_msgs = s.tx_msgs;
  peer_ip_be = s.from.ip;
  peer_port_be = s.from.port;
  transport = transport_code (slot_transport (v.slot_ssl conn_index) s);
  is_user = 0;
  flags = 0;
}

module _ (tdb : Tdb) (allocates : Bool) (v : View) where
  open tdb use {Db}

  -- A call of conn_write, whose result the source leaves aside.
  pub write_one : Db → ConnEntry → Db
  write_one db e = elim (conn_write tdb db allocates e) [ none ↦ db | some db' ↦ db' ]

  pub write_user : Db → Option User → Db
  write_user db none = db
  write_user db (some u) = write_one db (user_entry v u)

  -- The loop over the first `limit` slots, from the connection index n on.
  pub write_slots : ℕ → ℕ → List Slot → Db → Db
  write_slots zero n ss db = db
  write_slots (suc limit) n [] db = db
  write_slots (suc limit) n (s ∷ ss) db =
      write_slots limit (n + 1) ss (if s.used then write_one db (slot_entry v n s) else db)

  -- In the process that fork() makes: `opens` says whether the transaction starts, `commits` whether
  -- conn_db_close_commit succeeds.
  pub take_snapshot : Bool → Bool → Db → Db
  take_snapshot opens commits db =
      if opens && commits
      then write_slots v.table.max_conn2_count 1 v.table.slots
          (write_user (conn_delete_for_port2 tdb db v.port2).0 v.user)
      else db

-- The throttle: whether a snapshot is due, and last_conn_save_s after it, in microseconds.
pub snapshot_due : ℕ → ℕ → Bool × ℕ
snapshot_due snap_now last_conn_save =
    if ltb (last_conn_save + 5_000_000) snap_now then (true, snap_now) else (false, last_conn_save)
