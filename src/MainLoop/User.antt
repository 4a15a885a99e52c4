-- ===== src/MainLoop/User.antt =====
-- The user's side of a round of main_loop in supportproxy.cpp: a datagram, a new TCP connection, and
-- what a TCP connection or a WebSocket brings.
use udpproxy.Prelude.{
  ℕ, ◌+◌, ◌%◌, ◌^◌, Bool, true, false, not, ◌&&◌, ◌||◌, Option, none, some, List, ltb, ◌==◌,
  if◌then◌else◌, is_some,
}
use udpproxy.Message.{Message, Dialect}
use udpproxy.Database.Tdb.{Tdb}
use udpproxy.MainLoop.{Init, or_zero, messages_of, is_ready, Pair, Session, Turn}
use udpproxy.MainLoop.Flow.{Flow, fall, again, leave, ◌>>=◌}
use udpproxy.Slots.{UserSide, user_udp, user_tcp}
use udpproxy.UserLoop.{Incoming, user_messages}

-- uint32_t.
abbrev pub inc32 : ℕ → ℕ
inc32 n = (n + 1) % 2 ^ 32

-- Whether the answer of recv ends a connection; a WebSocket answers 0 while a frame is incomplete.
unfoldable pub is_eof : Bool → Option ℕ → Bool
is_eof over_ws none = true
is_eof over_ws (some n) = not over_ws && n == 0

module _ (d : Dialect) (to_buffer : Message → List ℕ) (tdb : Tdb) (p : Pair d to_buffer) where
  -- Where the bytes have anywhere to go.
  unfoldable pub is_wanted : Session d to_buffer → Bool
  is_wanted s = ltb 0 s.loop.table.conn2_count || (p.setup.binlog_enabled || p.setup.tlog_enabled)

  unfoldable pub take_user :
      UserSide → List (Incoming d to_buffer) → Session d to_buffer → Session d to_buffer
  take_user side ms s =
      if is_wanted s
      then record s {
        loop = user_messages d to_buffer (record (p.setup) { side = side }) ms s.loop;
      }
      else s

  -- mav1.init.
  abbrev pub init_user : ℕ → Bool → Init
  init_user fd is_tcp = record {
    fd = fd;
    is_tcp = is_tcp;
    signing_required = p.bidi;
    key_id = if p.bidi then some p.setup.port2 else none;
  }

  -- "have UDP conn1".
  unfoldable pub connect_udp :
      Turn d to_buffer tdb → ℕ → Session d to_buffer → Flow (Session d to_buffer)
  connect_udp t fd s =
      if s.have_conn1
      then fall s
      else if t.connects
      then fall (record s {
        mav1 = some (init_user fd false);
        have_conn1 = true;
        mav1_peer = t.user_from;
        mav1_connected_at = t.clock;
        mav1_is_tcp = false;
        last_conn_save = 0;
      })
      else leave s

  unfoldable pub count_user : Turn d to_buffer tdb → Session d to_buffer → Session d to_buffer
  count_user t s = record s { last_pkt1 = t.now; count1 = inc32 s.count1 }

  unfoldable pub read_datagram :
      Turn d to_buffer tdb → ℕ → Session d to_buffer → Flow (Session d to_buffer)
  read_datagram t fd s = elim t.udp_input.size [
    | none ↦ leave s
    | some n ↦ connect_udp t fd (count_user t s) >>= λ s'.
        fall (take_user user_udp (messages_of n t.udp_input.messages) s')
  ]

  unfoldable pub on_datagram :
      Turn d to_buffer tdb
      → (ℕ → Bool)
      → Option ℕ
      → Session d to_buffer
      → Flow (Session d to_buffer)
  on_datagram t fds none s = fall s
  on_datagram t fds (some fd) s =
      if fds fd then read_datagram t fd (record s { sock1_tcp = none }) else fall s

  -- "check for UDP user data".
  unfoldable pub user_datagram :
      Turn d to_buffer tdb → (ℕ → Bool) → Session d to_buffer → Flow (Session d to_buffer)
  unfolding on_datagram
  user_datagram t fds s = on_datagram t fds s.sock1_udp s

  -- "have TCP conn1".
  unfoldable pub accepted_user :
      Turn d to_buffer tdb → Session d to_buffer → Flow (Session d to_buffer)
  accepted_user t s = elim t.user_accepted [
    | none ↦ leave s
    | some fd2 ↦ again (record s {
      sock1_tcp = some fd2;
      have_conn1 = true;
      mav1_peer = t.user_from;
      mav1_connected_at = t.clock;
      mav1_is_tcp = true;
      last_conn_save = 0;
      mav1 = some (init_user fd2 true);
      last_pkt1 = t.now;
    })
  ]

  -- "check for TCP user new connections".
  unfoldable pub accept_user :
      Turn d to_buffer tdb → (ℕ → Bool) → Session d to_buffer → Flow (Session d to_buffer)
  accept_user t fds s =
      if not s.have_conn1 && is_ready fds s.sock1_tcp
      then accepted_user t (record s { sock1_udp = none })
      else fall s

  unfoldable pub detect_user : Turn d to_buffer tdb → Session d to_buffer → Session d to_buffer
  detect_user t s = elim t.user_ws [
    | none ↦ s
    | some is_ssl ↦ if s.count1 == 0 then record s { ws_ssl = some is_ssl; mav1_ws = true } else s
  ]

  unfoldable pub read_stream :
      Turn d to_buffer tdb → Session d to_buffer → Flow (Session d to_buffer)
  unfolding is_eof
  read_stream t s =
      if is_eof (is_some s.ws_ssl) t.tcp_input.size
      then leave s
      else fall (
          take_user user_tcp (messages_of (or_zero t.tcp_input.size) t.tcp_input.messages)
            (count_user t s))

  -- "check for TCP user data".
  unfoldable pub user_stream :
      Turn d to_buffer tdb → (ℕ → Bool) → Session d to_buffer → Flow (Session d to_buffer)
  user_stream t fds s =
      if is_ready fds s.sock1_tcp
      then read_stream t (detect_user t (record s { sock1_udp = none }))
      else fall s
