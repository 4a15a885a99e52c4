-- ===== src/MainLoop/Engineers.antt =====
-- The engineers' side of a round of main_loop in supportproxy.cpp: a datagram, a new TCP connection,
-- and the loop over the TCP connections.
use udpproxy.Prelude.{
  ℕ, ◌+◌, Bool, true, false, not, ◌&&◌, ◌||◌, Option, none, some, List, [], ◌∷◌, ltb, ◌==◌,
  if◌then◌else◌, is_some,
}
use udpproxy.Message.{Message, Dialect}
use udpproxy.Database.Tdb.{Tdb}
use udpproxy.MainLoop.{or_zero, messages_of, is_ready, Pair, Session, Relayed, Turn}
use udpproxy.MainLoop.Flow.{Flow, fall, again, leave, overrun}
use udpproxy.MainLoop.User.{inc32, is_eof}
use udpproxy.Slots.{Slot, Table, find_peer}
use udpproxy.Slots.Admission.{update, udp_engineer, tcp_accept, tcp_eof, is_tcp}
use udpproxy.Tlog.{log_message}

-- The operation f on slot i of the table.
unfoldable pub on_slot : ℕ → (Slot → Slot) → Table → Table
on_slot i f t = record t { slots = update i f t.slots }

unfoldable pub count_rx : Slot → Slot
count_rx s = record s { rx_msgs = inc32 s.rx_msgs }

unfoldable pub set_active : Slot → Slot
set_active s = record s { tcp_active = true }

unfoldable pub set_has_ws : Bool → Slot → Slot
set_has_ws over_ws s = record s { has_ws = over_ws }

module _ (d : Dialect) (to_buffer : Message → List ℕ) (tdb : Tdb) (p : Pair d to_buffer) where
  unfoldable pub with_table : Table → Session d to_buffer → Session d to_buffer
  with_table t s = record s { loop = record (s.loop) { table = t } }

  -- The body of the loops over an engineer's messages.
  unfoldable pub engineer_message :
      ℕ → Relayed d to_buffer → Session d to_buffer → Session d to_buffer
  engineer_message i m s = record s {
    loop = record (s.loop) {
      tlog =
          log_message to_buffer p.setup.tlog_enabled p.setup.port2 p.setup.session_n m.heard
            s.loop.tlog;
      table = on_slot i count_rx s.loop.table;
    };
    mav1_tx_msgs = if m.sent then inc32 s.mav1_tx_msgs else s.mav1_tx_msgs;
  }

  -- Whether a message could not be sent, which ends the loop.
  unfoldable pub engineer_messages :
      ℕ → List (Relayed d to_buffer) → Session d to_buffer → Bool × Session d to_buffer
  engineer_messages i [] s = (false, s)
  engineer_messages i (m ∷ ms) s =
      let s' = engineer_message i m s in
      let rest = engineer_messages i ms s' in if m.sent then rest else (true, s')

  -- The messages go nowhere while there is no user.
  unfoldable pub take_engineer :
      ℕ → List (Relayed d to_buffer) → Session d to_buffer → Bool × Session d to_buffer
  take_engineer i ms s = if s.have_conn1 then engineer_messages i ms s else (false, s)

  abbrev pub if_failed : Bool × Session d to_buffer → Flow (Session d to_buffer)
  if_failed (true, s) = leave s
  if_failed (false, s) = fall s

  unfoldable pub known_datagram :
      Turn d to_buffer tdb → ℕ → Option ℕ × Table → Session d to_buffer → Flow (Session d to_buffer)
  known_datagram t n (slot, table) s = elim slot [
    | none ↦ fall s
    | some i ↦
        let is_new =
          not
            (is_some (find_peer t.engineer_from s.loop.table.max_conn2_count s.loop.table.slots)) in
        if_failed (
          take_engineer i (messages_of n t.engineer_input.messages) (record (with_table table s) {
            last_conn_save = if is_new then 0 else s.last_conn_save;
          }))
  ]

  -- "check for UDP support engineer data".
  unfoldable pub engineer_datagram :
      Turn d to_buffer tdb → (ℕ → Bool) → Session d to_buffer → Flow (Session d to_buffer)
  engineer_datagram t fds s =
      if is_ready fds s.sock2_udp
      then elim t.engineer_input.size [
        | none ↦ leave s
        | some n ↦
            known_datagram t n (udp_engineer t.engineer_from t.now t.clock s.loop.table)
              (record s { count2 = inc32 s.count2 })
      ]
      else fall s

  abbrev pub admit : Bool × Table → Session d to_buffer → Session d to_buffer
  admit (false, table) s = s
  admit (true, table) s = record (with_table table s) { last_conn_save = 0 }

  -- "check for new TCP support engineer connection".
  unfoldable pub accept_engineer :
      Turn d to_buffer tdb → (ℕ → Bool) → Session d to_buffer → Flow (Session d to_buffer)
  accept_engineer t fds s =
      if is_ready fds s.sock2_listen
      then elim t.engineer_accepted [
        | none ↦ again s
        | some fd2 ↦ again (admit (tcp_accept t.engineer_from fd2 t.clock s.loop.table) s)
      ]
      else fall s

  -- A slot's socket that is ready, where `over_ws` says whether it has a WebSocket now.
  unfoldable pub read_ready :
      Turn d to_buffer tdb → ℕ → Bool → Session d to_buffer → Bool × Session d to_buffer
  read_ready t i over_ws s =
      let bytes = (t.readings i).bytes in
      let n = or_zero bytes.size in
      let heard = record (with_table (on_slot i set_active s.loop.table) s) {
        count2 = inc32 s.count2;
      } in
      if is_eof over_ws bytes.size
      then (false, with_table (tcp_eof i s.loop.table) s)
      else if n == 0
      then (false, s)
      else take_engineer i bytes.messages heard

  unfoldable pub read_slot :
      Turn d to_buffer tdb
      → (ℕ → Bool)
      → ℕ
      → Slot
      → Session d to_buffer
      → Bool × Session d to_buffer
  read_slot t fds i slot s =
      let over_ws = slot.has_ws || (not slot.tcp_active && (t.readings i).detected) in
      if is_tcp slot && is_ready fds slot.sock
      then read_ready t i over_ws (with_table (on_slot i (set_has_ws over_ws) s.loop.table) s)
      else (false, s)

  -- "check for new TCP support engineer data", from slot i on. A round changes no slot but its own,
  -- so that the slots behind it are those of the start.
  unfoldable pub read_from :
      Turn d to_buffer tdb
      → (ℕ → Bool)
      → ℕ
      → List Slot
      → Session d to_buffer
      → Flow (Session d to_buffer)
  read_from t fds i [] s = if ltb i s.loop.table.max_conn2_count then overrun s else fall s
  read_from t fds i (slot ∷ ss) s =
      let r = read_slot t fds i slot s in
      let rest = read_from t fds (i + 1) ss r.1 in
      if ltb i s.loop.table.max_conn2_count then (if r.0 then fall r.1 else rest) else fall s

  unfoldable pub read_engineers :
      Turn d to_buffer tdb → (ℕ → Bool) → Session d to_buffer → Flow (Session d to_buffer)
  read_engineers t fds s = read_from t fds 0 s.loop.table.slots s
