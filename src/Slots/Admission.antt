-- ===== src/Slots/Admission.antt =====
-- What engineers' connections do to the slots in main_loop of supportproxy.cpp: a datagram from a
-- known or new UDP peer, a TCP connection accepted or ended, and the drop requests of the web UI.
use udpproxy.Prelude.{
  ℕ, zero, suc, max, Bool, true, false, not, ◌&&◌, ◌||◌, Option, none, some, List, [], ◌∷◌, ltb,
  leb, ◌==◌, if◌then◌else◌, is_some, get_elem?,
}
use udpproxy.Slots.{
  Address, Slot, Table, close_slot, count_closed, find_peer, first_free, inc8, dec8,
  max_comm2_links,
}

-- A slot's operation at an index.
unfoldable pub update : ℕ → (Slot → Slot) → List Slot → List Slot
update i f [] = []
update zero f (s ∷ ss) = f s ∷ ss
update (suc i) f (s ∷ ss) = s ∷ update i f ss

-- conn2_count++ and the high mark that follows.
unfoldable pub count_opened : Table → Table
count_opened t = record t {
  conn2_count = inc8 t.conn2_count;
  max_conn2_count = max t.max_conn2_count (inc8 t.conn2_count);
}

unfoldable pub touch : ℕ → Slot → Slot
touch now s = record s { last_pkt = now }

unfoldable pub open_udp : Address → ℕ → ℕ → Slot → Slot
open_udp a now clock s = record s {
  sock = none;
  used = true;
  tcp_active = true;
  from = a;
  is_udp = true;
  last_pkt = now;
  connected_at = clock;
  rx_msgs = 0;
  tx_msgs = 0;
}

unfoldable pub open_tcp : Address → ℕ → ℕ → Slot → Slot
open_tcp a fd clock s = record s {
  sock = some fd;
  used = true;
  tcp_active = false;
  from = a;
  is_udp = false;
  connected_at = clock;
  rx_msgs = 0;
  tx_msgs = 0;
}

-- A datagram on the engineers' UDP socket: its slot, if any was left for it, and the table.
unfoldable pub udp_engineer : Address → ℕ → ℕ → Table → Option ℕ × Table
udp_engineer a now clock t = elim (find_peer a t.max_conn2_count t.slots) [
  | some i ↦ (some i, record t { slots = update i (touch now) t.slots })
  | none ↦ elim (first_free t.slots) [
    | some i ↦ (some i, count_opened (record t { slots = update i (open_udp a now clock) t.slots }))
    | none ↦ (none, t)
  ]
]

-- A connection accepted on the engineers' listening socket: whether it is kept, and the table.
unfoldable pub tcp_accept : Address → ℕ → ℕ → Table → Bool × Table
tcp_accept a fd clock t =
    if leb max_comm2_links t.conn2_count then (false, t) else (elim (first_free t.slots) [
      | some i ↦ (true, count_opened (record t { slots = update i (open_tcp a fd clock) t.slots }))
      | none ↦ (false, t)
    ])

-- What follows the end of an engineer's TCP connection.
unfoldable pub tcp_eof : ℕ → Table → Table
tcp_eof i t = count_closed (record t { slots = update i close_slot t.slots })

-- The loop over the engineers' TCP connections, at a slot whose socket is readable and whose
-- connection has ended: `i` is below max_conn2_count there.
unfoldable pub is_tcp : Slot → Bool
is_tcp s = not (s.is_udp || (not s.used || not (is_some s.sock)))

unfoldable pub read_tcp : ℕ → Table → Table
read_tcp i t = elim (get_elem? t.slots i) [
  | some s ↦ if ltb i t.max_conn2_count && is_tcp s then tcp_eof i t else t
  | none ↦ t
]

-- The counters after a drop request for slot `idx`, counted from 1.
unfoldable pub count_dropped : ℕ → Table → Table
count_dropped idx t = record t {
  conn2_count = if ltb 0 t.conn2_count then dec8 t.conn2_count else t.conn2_count;
  max_conn2_count =
      if ltb 0 t.max_conn2_count && idx == t.max_conn2_count
      then dec8 t.max_conn2_count
      else t.max_conn2_count;
}

unfoldable pub slot_used : ℕ → List Slot → Bool
slot_used i [] = false
slot_used zero (s ∷ ss) = s.used
slot_used (suc i) (s ∷ ss) = slot_used i ss

-- One drop request; index 0 is the user, whose drop ends the session.
unfoldable pub drop_one : ℕ → Bool × Table → Bool × Table
drop_one zero r = (true, r.1)
drop_one (suc i) r =
    if ltb i max_comm2_links && slot_used i (r.1).slots
    then (r.0, count_dropped (suc i) (record (r.1) { slots = update i close_slot (r.1).slots }))
    else r

-- process_drops, on the indices that the connection table asks to drop.
unfoldable pub process_drops : List ℕ → Bool × Table → Bool × Table
process_drops [] r = r
process_drops (i ∷ is) r = process_drops is (drop_one i r)
