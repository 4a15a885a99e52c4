-- ===== src/Snapshot/Shown.antt =====
-- What the web interface should find in connections.tdb: struct ConnEntry of conntdb.h.
use udpproxy.Prelude.{
  ℕ, zero, suc, ◌≡◌, refl, ap, ◌∙◌, Bool, true, false, not, ◌&&◌, Option, none, some, List, [], ◌∷◌,
  ◌++◌, arith, if◌then◌else◌, is_some,
}
use udpproxy.Database.Bytes.{le_bytes}
use udpproxy.Slots.{Slot}
use udpproxy.Database.Tdb.{Bytes}
use udpproxy.Database.Connections.{ConnEntry, write_conn}
use udpproxy.Snapshot.{
  User, View, user_entry, user_transport, slot_entry, slot_transport, transport_code,
}

-- The slot of a connection index, counted from n, if it is used and below the limit.
abbrev pub live_slot : ℕ → List Slot → ℕ → Option Slot
live_slot zero ss k = none
live_slot (suc limit) [] k = none
live_slot (suc limit) (s ∷ ss) zero = if s.used then some s else none
live_slot (suc limit) (s ∷ ss) (suc k) = live_slot limit ss k

abbrev is_ssl : Option Bool → Bool
is_ssl none = false
is_ssl (some b) = b

-- CONN_TRANSPORT_WSS, _WS, _TCP or _UDP: whether the connection is over UDP, whether it has a WebSocket,
-- and whether that has TLS.
abbrev pub shown_transport : Bool → Bool → Bool → ℕ
shown_transport true has_ws is_ssl = 0
shown_transport false false is_ssl = 1
shown_transport false true false = 2
shown_transport false true true = 3

-- A packed struct from the widths and values of its fields, little-endian.
abbrev pub struct_bytes : List (ℕ × ℕ) → Bytes
struct_bytes [] = []
struct_bytes ((width, value) ∷ []) = le_bytes width value
struct_bytes ((width, value) ∷ (next ∷ rest)) = le_bytes width value ++ struct_bytes (next ∷ rest)

-- The fields of struct ConnEntry, with its padding word.
abbrev pub layout : ConnEntry → List (ℕ × ℕ)
layout e =
    (8, e.magic)
    ∷ (8, e.connected_at)
    ∷ (8, e.last_update)
    ∷ (4, e.port2)
    ∷ (4, e.conn_index)
    ∷ (4, e.pid)
    ∷ (4, e.rx_msgs)
    ∷ (4, e.tx_msgs)
    ∷ (4, e.peer_ip_be)
    ∷ (2, e.peer_port_be)
    ∷ (1, e.transport)
    ∷ (1, e.is_user)
    ∷ (4, e.flags)
    ∷ (8, 0)
    ∷ []

write_conn-layout : (e : ConnEntry) → write_conn e ≡ struct_bytes (layout e)
unfolding write_conn
write_conn-layout e = refl

-- The record of a user: on a WebSocket, on TCP or on UDP.
abbrev pub user_record : View → Option User → Option Bytes
user_record v none = none
user_record v (some u) = some (
    struct_bytes (
      layout (record {
        magic = 0x436f6e6e45424553;
        connected_at = u.connected_at;
        last_update = v.now;
        port2 = v.port2;
        conn_index = 0;
        pid = v.pid;
        rx_msgs = u.rx_msgs;
        tx_msgs = u.tx_msgs;
        peer_ip_be = u.peer.ip;
        peer_port_be = u.peer.port;
        transport =
            shown_transport (not u.is_tcp && not (is_some u.ws_ssl)) (is_some u.ws_ssl)
              (is_ssl u.ws_ssl);
        is_user = 1;
        flags = 0;
      })))

-- The record of an engineer.
abbrev pub slot_record : View → ℕ → Option Slot → Option Bytes
slot_record v j none = none
slot_record v j (some s) = some (
    struct_bytes (
      layout (record {
        magic = 0x436f6e6e45424553;
        connected_at = s.connected_at;
        last_update = v.now;
        port2 = v.port2;
        conn_index = j;
        pid = v.pid;
        rx_msgs = s.rx_msgs;
        tx_msgs = s.tx_msgs;
        peer_ip_be = s.from.ip;
        peer_port_be = s.from.port;
        transport = shown_transport s.is_udp s.has_ws (v.slot_ssl j);
        is_user = 0;
        flags = 0;
      })))

-- What the web interface should find for a connection index: the user's record at 0, and that of the
-- slot i at i + 1, if there is such a connection.
abbrev pub live_record : View → ℕ → Option Bytes
live_record v zero = user_record v v.user
live_record v (suc i) = slot_record v (suc i) (live_slot v.table.max_conn2_count v.table.slots i)

user_transport_eq :
    (u : User)
    → transport_code (user_transport u)
      ≡ shown_transport
          (not u.is_tcp && not (is_some u.ws_ssl))
          (is_some u.ws_ssl)
          (is_ssl u.ws_ssl)
unfolding user_transport transport_code
user_transport_eq u = ground arith

slot_transport_eq :
    (ssl : Bool) (s : Slot)
    → transport_code (slot_transport ssl s) ≡ shown_transport s.is_udp s.has_ws ssl
unfolding slot_transport transport_code
slot_transport_eq ssl s = ground arith

pub user_record_eq :
    (v : View) (u : User) → some (write_conn (user_entry v u)) ≡ user_record v (some u)
unfolding user_entry
user_record_eq v u =
    ap some (write_conn-layout (user_entry v u))
    ∙ ap (λ t. some (struct_bytes (layout (record (user_entry v u) { transport = t }))))
        (user_transport_eq u)

pub slot_record_eq :
    (v : View) (j : ℕ) (s : Slot) → some (write_conn (slot_entry v j s)) ≡ slot_record v j (some s)
unfolding slot_entry
slot_record_eq v j s =
    ap some (write_conn-layout (slot_entry v j s))
    ∙ ap (λ t. some (struct_bytes (layout (record (slot_entry v j s) { transport = t }))))
        (slot_transport_eq (v.slot_ssl j) s)
