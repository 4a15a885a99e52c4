-- ===== src/MainLoop/Recorded.antt =====
-- The dataflash log over a whole session of main_loop.
use udpproxy.Prelude.{
  ℕ, ◌≤◌, ◌≡◌, sym, subst, inl, inr, Bool, ◌&&◌, Option, none, some, List, [], ◌∷◌, ◌++◌, arith,
  ◌==◌, Option-cases, is_some, if-both, length, All,
}
use udpproxy.Message.{Message, Dialect}
use udpproxy.Binlog.Writer.{Writer, new_writer}
use udpproxy.Binlog.Invariant.{Inv, new_writer-Inv}
use udpproxy.Binlog.History.{
  Call, filter_on, run, step, ShortBlocks, run_from-Inv, run_from-FitsQuota, pump_at,
}
use udpproxy.Binlog.Receive.Limits.{FitsQuota}
use udpproxy.Database.Tdb.{Tdb}
use udpproxy.MainLoop.{is_ready, has_fd, Pair, Session, Turn, watched, new_binlog, new_session}
use udpproxy.MainLoop.Flow.{Keeps, After-bind}
use udpproxy.MainLoop.User.{
  is_wanted, is_eof, take_user, count_user, connect_udp, read_datagram, on_datagram, user_datagram,
  accepted_user, accept_user, detect_user, read_stream, user_stream,
}
use udpproxy.MainLoop.Rounds.{pump_binlog, snapshot, finish, turn, turns}
use udpproxy.MainLoop.Rule.{serve-Keeps, turn-Keeps, turns-Keeps}
use udpproxy.MainLoop.SameUser.{SameUser}
use udpproxy.Slots.{Address, UserSide, user_udp, user_tcp}
use udpproxy.UserLoop.{Incoming, Setup}
use udpproxy.UserLoop.Shares.{calls, user_messages-shares}

module _ (d : Dialect) (to_buffer : Message → List ℕ) (tdb : Tdb) (p : Pair d to_buffer)
    (short : (m : Message) → length (d.decode_block m).bytes ≤ 200) where
  abbrev Fits : Writer → Type 0
  Fits w = Inv w × FitsQuota w

  abbrev pub IsRecorded : Session d to_buffer → Type 0
  IsRecorded s = Fits s.loop.binlog

  run-Fits :
      (port2 n : ℕ) (w : Writer) (cs : List Call)
      → All (ShortBlocks d) cs
      → Fits w
      → Fits (run d port2 n w cs)
  run-Fits port2 n w cs h v =
      (run_from-Inv d port2 n w cs v.0, run_from-FitsQuota d port2 n w cs h v.1)

  calls-short :
      (u : Setup d to_buffer) (ms : List (Incoming d to_buffer))
      → All (ShortBlocks d) (calls d to_buffer u ms)
  calls-short u [] = tt
  calls-short u (m ∷ ms) =
      let rest = calls-short u ms in
      let P = λ (cs : List Call). All (ShortBlocks d) (cs ++ calls d to_buffer u ms) in
      if-both P u.binlog_enabled
        (if-both P (m.heard.msg.msgid == d.id_remote_log_data_block) (tt, (short m.heard.msg, rest))
          (tt, rest))
        rest

  take_user-IsRecorded :
      (side : UserSide) (ms : List (Incoming d to_buffer)) (s : Session d to_buffer)
      → IsRecorded s
      → IsRecorded (take_user d to_buffer tdb p side ms s)
  unfolding take_user
  take_user-IsRecorded side ms s v =
      let u = record (p.setup) { side = side } in
      if-both IsRecorded (is_wanted d to_buffer tdb p s)
        (subst Fits (sym (user_messages-shares d to_buffer u ms s.loop).1) (
          run-Fits u.port2 u.session_n s.loop.binlog (calls d to_buffer u ms) (calls-short u ms) v))
        v

  SameUser-IsRecorded :
      (s s' : Session d to_buffer) → IsRecorded s → SameUser d to_buffer s s' → IsRecorded s'
  SameUser-IsRecorded s s' v same = subst Fits (sym same.binlog) v

  module _ (t : Turn d to_buffer tdb) (fds : ℕ → Bool) where
    read_datagram-IsRecorded :
        (fd : ℕ) (s : Session d to_buffer)
        → IsRecorded s
        → Keeps IsRecorded (read_datagram d to_buffer tdb p t fd s)
    unfolding read_datagram connect_udp count_user
    read_datagram-IsRecorded fd s v = elim (Option-cases t.udp_input.size) [
      | inl e ↦ rw e tt
      | inr (n, e) ↦ rw e (
          After-bind IsRecorded IsRecorded IsRecorded
            (connect_udp d to_buffer tdb p t fd (count_user d to_buffer tdb p t s)) _ (ground arith)
            (λ u h. take_user-IsRecorded user_udp _ u h))
    ]

    on_datagram-IsRecorded :
        (fd : Option ℕ) (s : Session d to_buffer)
        → IsRecorded s
        → Keeps IsRecorded (on_datagram d to_buffer tdb p t fds fd s)
    unfolding on_datagram
    on_datagram-IsRecorded none s v = v
    on_datagram-IsRecorded (some fd) s v =
        if-both (Keeps IsRecorded) (fds fd)
          (read_datagram-IsRecorded fd (record s { sock1_tcp = none }) v) v

    user_datagram-IsRecorded :
        (s : Session d to_buffer)
        → IsRecorded s
        → Keeps IsRecorded (user_datagram d to_buffer tdb p t fds s)
    unfolding user_datagram
    user_datagram-IsRecorded s v = on_datagram-IsRecorded s.sock1_udp s v

    accept_user-IsRecorded :
        (s : Session d to_buffer)
        → IsRecorded s
        → Keeps IsRecorded (accept_user d to_buffer tdb p t fds s)
    unfolding accept_user accepted_user
    accept_user-IsRecorded s v = ground arith

    user_stream-IsRecorded :
        (s : Session d to_buffer)
        → IsRecorded s
        → Keeps IsRecorded (user_stream d to_buffer tdb p t fds s)
    unfolding user_stream read_stream detect_user count_user
    user_stream-IsRecorded s v =
        let seen = detect_user d to_buffer tdb p t (record s { sock1_udp = none }) in
        let same : seen.loop ≡ s.loop = ground arith in
        let heard = count_user d to_buffer tdb p t seen in
        if-both (Keeps IsRecorded) (is_ready fds s.sock1_tcp)
          (if-both (Keeps IsRecorded) (is_eof (is_some seen.ws_ssl) t.tcp_input.size) tt
            (take_user-IsRecorded user_tcp _ heard (subst (λ l. Fits l.binlog) (sym same) v)))
          v

    pump_binlog-IsRecorded :
        (s : Session d to_buffer) → IsRecorded s → IsRecorded (pump_binlog d to_buffer tdb p t s)
    unfolding pump_binlog run step
    pump_binlog-IsRecorded s v =
        let call = pump_at t.tick_now t.accepts ∷ [] in
        if-both IsRecorded (p.setup.binlog_enabled && s.have_conn1)
          (run-Fits p.setup.port2 p.setup.session_n s.loop.binlog call (tt, tt) v) v

    finish-IsRecorded :
        (s : Session d to_buffer) → IsRecorded s → Keeps IsRecorded (finish d to_buffer tdb p t s)
    unfolding finish snapshot
    finish-IsRecorded s v = pump_binlog-IsRecorded s v

  new_session-IsRecorded :
      (udp1 udp2 tcp1 listen2 : Option ℕ) (nobody : Address) (held : Bool)
      → IsRecorded (new_session d to_buffer p udp1 udp2 tcp1 listen2 nobody held)
  unfolding new_session new_binlog new_writer run step
  new_session-IsRecorded udp1 udp2 tcp1 listen2 nobody held =
      let v : Fits new_writer = (new_writer-Inv, omega arith) in
      if-both Fits p.setup.binlog_enabled
        (run-Fits p.setup.port2 p.setup.session_n new_writer (filter_on p.fc_sysid ∷ []) (tt, tt) v)
        v

  turn-IsRecorded :
      (t : Turn d to_buffer tdb) (s : Session d to_buffer)
      → IsRecorded s
      → Keeps IsRecorded (turn d to_buffer tdb p t s)
  turn-IsRecorded t s h =
      turn-Keeps d to_buffer tdb p IsRecorded SameUser-IsRecorded t
        (λ fds s e.
          let left = λ (fd : ℕ). has_fd (watched d to_buffer s) fd && fds fd in
          serve-Keeps d to_buffer tdb p IsRecorded SameUser-IsRecorded t left IsRecorded
            (user_datagram-IsRecorded t left) (accept_user-IsRecorded t left)
            (user_stream-IsRecorded t left) (finish-IsRecorded t left) s)
        s h

  -- After any rounds of a new session that is still running, where the decoder gives at most 200 bytes
  -- for a block, and whatever messages arrive of the user and of the engineers: only received blocks
  -- await acknowledgement, only missing ones below the highest are chased, received ones lie in the
  -- tracked size, a closed writer holds nothing of an earlier log, and the open file and the size that
  -- is tracked for it are at most 1 GiB.
  pub turns-IsRecorded :
      (ts : List (Turn d to_buffer tdb)) (udp1 udp2 tcp1 listen2 : Option ℕ) (nobody : Address)
      (held : Bool)
      → Keeps IsRecorded (
          turns d to_buffer tdb p ts (new_session d to_buffer p udp1 udp2 tcp1 listen2 nobody held))
  turns-IsRecorded ts udp1 udp2 tcp1 listen2 nobody held =
      turns-Keeps d to_buffer tdb p IsRecorded turn-IsRecorded ts _
        (new_session-IsRecorded udp1 udp2 tcp1 listen2 nobody held)
