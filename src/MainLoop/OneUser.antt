-- ===== src/MainLoop/OneUser.antt =====
-- Who the user of a session is, at every round of main_loop.
use udpproxy.Prelude.{
  ℕ, ◌≡◌, ◌⊎◌, inl, Bool, true, false, ◌&&◌, ◌||◌, if◌then◌else◌, Option, none, some, List, [],
  arith, is_some,
}
use udpproxy.Message.{Message, Dialect}
use udpproxy.Database.Tdb.{Tdb}
use udpproxy.MainLoop.{
  Init, is_ready, has_fd, Pair, Session, Turn, watched, new_binlog, new_session,
}
use udpproxy.MainLoop.Flow.{After, Keeps}
use udpproxy.MainLoop.User.{
  take_user, count_user, connect_udp, read_datagram, user_datagram, accepted_user, accept_user,
  detect_user, read_stream, user_stream,
}
use udpproxy.MainLoop.Rounds.{pump_binlog, snapshot, finish, turn, turns}
use udpproxy.MainLoop.Rule.{serve-Keeps, turn-Keeps, turns-Keeps}
use udpproxy.MainLoop.SameUser.{SameUser}
use udpproxy.Slots.{Address}

module _ (d : Dialect) (to_buffer : Message → List ℕ) (tdb : Tdb) (p : Pair d to_buffer) where
  -- The arguments of mav1.init for a socket.
  abbrev pub bound : Bool → Option ℕ → Option Init
  bound is_tcp none = none
  bound is_tcp (some fd) = some (record {
    fd = fd;
    is_tcp = is_tcp;
    signing_required = p.bidi;
    key_id = if p.bidi then some p.setup.port2 else none;
  })

  -- mav1 has not been set up, and nothing has been read of a user, logged, forwarded or sent to one.
  pub record NoUser (held : Bool) (s : Session d to_buffer) : Type 0 where
    pub conn : s.have_conn1 ≡ false
    pub mav : s.mav1 ≡ none
    pub mav_ws : s.mav1_ws ≡ held
    pub ws : s.ws_ssl ≡ none
    pub count : s.count1 ≡ 0
    pub tlog : s.loop.tlog ≡ none
    pub binlog : s.loop.binlog ≡ new_binlog d to_buffer p
    pub rx : s.loop.mav1_rx_msgs ≡ 0
    pub passed : s.loop.passed ≡ []
    pub tx : s.mav1_tx_msgs ≡ 0
    pub pumped : s.pumped ≡ []

  pub record UdpUser (held : Bool) (s : Session d to_buffer) : Type 0 where
    pub conn : s.have_conn1 ≡ true
    pub over_tcp : s.mav1_is_tcp ≡ false
    pub tcp : s.sock1_tcp ≡ none
    pub there : is_some s.sock1_udp ≡ true
    pub mav : s.mav1 ≡ bound false s.sock1_udp
    pub mav_ws : s.mav1_ws ≡ held
    pub ws : s.ws_ssl ≡ none

  pub record TcpUser (held : Bool) (s : Session d to_buffer) : Type 0 where
    pub conn : s.have_conn1 ≡ true
    pub over_tcp : s.mav1_is_tcp ≡ true
    pub udp : s.sock1_udp ≡ none
    pub there : is_some s.sock1_tcp ≡ true
    pub mav : s.mav1 ≡ bound true s.sock1_tcp
    pub mav_ws : s.mav1_ws ≡ (is_some s.ws_ssl || held)

  abbrev pub HasOneUser : Bool → Session d to_buffer → Type 0
  HasOneUser held s = NoUser held s ⊎ UdpUser held s ⊎ TcpUser held s

  SameUser-HasOneUser :
      (held : Bool) (s s' : Session d to_buffer)
      → HasOneUser held s
      → SameUser d to_buffer s s'
      → HasOneUser held s'
  SameUser-HasOneUser held s s' h v = ground arith

  module _ (held : Bool) (t : Turn d to_buffer tdb) (fds : ℕ → Bool) where
    user_datagram-HasOneUser :
        (s : Session d to_buffer)
        → HasOneUser held s
        → Keeps (HasOneUser held) (user_datagram d to_buffer tdb p t fds s)
    unfolding user_datagram read_datagram connect_udp take_user count_user
    user_datagram-HasOneUser s h = ground arith

    -- Behind the branch of a new TCP user there is a user, or nothing to read of one.
    abbrev IsOpen : Session d to_buffer → Type 0
    IsOpen s = HasOneUser held s × ((s.have_conn1 ≡ true) ⊎ (is_ready fds s.sock1_tcp ≡ false))

    accept_user-HasOneUser :
        (s : Session d to_buffer)
        → HasOneUser held s
        → After (HasOneUser held) IsOpen (accept_user d to_buffer tdb p t fds s)
    unfolding accept_user accepted_user
    accept_user-HasOneUser s h = ground arith

    user_stream-HasOneUser :
        (s : Session d to_buffer)
        → IsOpen s
        → Keeps (HasOneUser held) (user_stream d to_buffer tdb p t fds s)
    unfolding user_stream read_stream detect_user take_user count_user
    user_stream-HasOneUser s h = ground arith

  finish-HasOneUser :
      (held : Bool) (t : Turn d to_buffer tdb) (s : Session d to_buffer)
      → HasOneUser held s
      → Keeps (HasOneUser held) (finish d to_buffer tdb p t s)
  unfolding finish snapshot pump_binlog
  finish-HasOneUser held t s h = ground arith

  turn-HasOneUser :
      (held : Bool) (t : Turn d to_buffer tdb) (s : Session d to_buffer)
      → HasOneUser held s
      → Keeps (HasOneUser held) (turn d to_buffer tdb p t s)
  turn-HasOneUser held t s h =
      turn-Keeps d to_buffer tdb p (HasOneUser held) (SameUser-HasOneUser held) t
        (λ fds s e.
          let left = λ (fd : ℕ). has_fd (watched d to_buffer s) fd && fds fd in
          serve-Keeps d to_buffer tdb p (HasOneUser held) (SameUser-HasOneUser held) t left
            (IsOpen held t left) (user_datagram-HasOneUser held t left)
            (accept_user-HasOneUser held t left) (user_stream-HasOneUser held t left)
            (finish-HasOneUser held t) s)
        s h

  -- After any rounds of a new session that is still running, whatever the system answers: either
  -- nobody has connected, and then mav1 is not set up, nothing was counted or received of a user,
  -- nothing was logged, forwarded or sent to a user, and the dataflash log is as new; or the user is on
  -- UDP, the user's listening TCP socket is closed, and mav1 was set up on the UDP socket; or the user
  -- is on TCP, the UDP socket is closed, and mav1 was set up on the TCP socket. mav1 was set up to want
  -- signatures, and under the key of port2, if and only if the entry's flags ask for it. Its pointer to
  -- a WebSocket is null or not as the memory of mav1 was at the start, until a WebSocket is set.
  pub turns-HasOneUser :
      (ts : List (Turn d to_buffer tdb)) (udp1 udp2 tcp1 listen2 : Option ℕ) (nobody : Address)
      (held : Bool)
      → Keeps (HasOneUser held) (
          turns d to_buffer tdb p ts (new_session d to_buffer p udp1 udp2 tcp1 listen2 nobody held))
  unfolding new_session
  turns-HasOneUser ts udp1 udp2 tcp1 listen2 nobody held =
      turns-Keeps d to_buffer tdb p (HasOneUser held) (turn-HasOneUser held) ts
        (new_session d to_buffer p udp1 udp2 tcp1 listen2 nobody held) (inl (ground arith))
