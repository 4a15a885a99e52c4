-- ===== src/MainLoop/Rounds.antt =====
-- One round of the `while (1)` of main_loop in supportproxy.cpp, its rounds, and the whole session up
-- to the count of its packets in keys.tdb.
use udpproxy.Prelude.{
  ℕ, ◌+◌, Bool, ◌&&◌, Option, none, some, List, [], ◌∷◌, ◌++◌, ltb, if◌then◌else◌,
}
use udpproxy.Message.{Message, Dialect}
use udpproxy.Binlog.Pump.{tick}
use udpproxy.Database.Tdb.{Tdb}
use udpproxy.Database.Keys.Totals.{count_session}
use udpproxy.Drops.{process_requests}
use udpproxy.MainLoop.{has_fd, Selected, interrupted, silent, ready, Pair, Session, Turn, watched}
use udpproxy.MainLoop.Flow.{Flow, fall, again, leave, exits, overrun, ◌>>=◌, resume}
use udpproxy.MainLoop.User.{user_datagram, accept_user, user_stream}
use udpproxy.MainLoop.Engineers.{with_table, engineer_datagram, accept_engineer, read_engineers}
use udpproxy.Slots.{expire_udp, is_bug}
use udpproxy.Snapshot.{View, snapshot_due}

module _ (d : Dialect) (to_buffer : Message → List ℕ) (tdb : Tdb) (p : Pair d to_buffer) where
  -- `if (g_drops_pending)`.
  unfoldable pub take_drops :
      Turn d to_buffer tdb → Session d to_buffer → Flow (Session d to_buffer)
  take_drops t s = elim t.signal [
    | none ↦ fall s
    | some (opens, db) ↦
        let r = process_requests tdb opens t.commits p.setup.port2 db s.loop.table in
        let s' = with_table d to_buffer tdb p r.1.1 s in if r.1.0 then leave s' else fall s'
  ]

  -- 10 seconds without the user.
  unfoldable pub check_user :
      Turn d to_buffer tdb → Session d to_buffer → Flow (Session d to_buffer)
  check_user t s =
      if s.have_conn1 && ltb (s.last_pkt1 + 10_000_000) t.began then leave s else fall s

  unfoldable pub expire : Turn d to_buffer tdb → Session d to_buffer → Flow (Session d to_buffer)
  expire t s =
      if is_bug s.loop.table
      then exits s
      else fall (with_table d to_buffer tdb p (expire_udp t.now s.loop.table) s)

  unfoldable pub pump_binlog : Turn d to_buffer tdb → Session d to_buffer → Session d to_buffer
  pump_binlog t s =
      let (w, packets) = tick d t.accepts t.tick_now s.loop.binlog in
      if p.setup.binlog_enabled && s.have_conn1
      then record s { loop = record (s.loop) { binlog = w }; pumped = s.pumped ++ packets }
      else s

  -- What the process of a snapshot finds in its memory.
  unfoldable pub view : Turn d to_buffer tdb → Session d to_buffer → View
  view t s = record {
    user =
        if s.have_conn1
        then some (record {
          connected_at = s.mav1_connected_at;
          rx_msgs = s.loop.mav1_rx_msgs;
          tx_msgs = s.mav1_tx_msgs;
          peer = s.mav1_peer;
          ws_ssl = s.ws_ssl;
          is_tcp = s.mav1_is_tcp;
        })
        else none;
    table = s.loop.table;
    slot_ssl = t.slot_ssl;
    port2 = p.setup.port2;
    pid = p.pid;
    now = t.clock;
  }

  unfoldable pub snapshot : Turn d to_buffer tdb → Session d to_buffer → Session d to_buffer
  unfolding view
  snapshot t s =
      let (due, last) = snapshot_due t.snap_now s.last_conn_save in
      record s {
        last_conn_save = last;
        saved = if due && t.forks then s.saved ++ view t s ∷ [] else s.saved;
      }

  -- What follows the branches of the user and of the engineers.
  unfoldable pub finish : Turn d to_buffer tdb → Session d to_buffer → Flow (Session d to_buffer)
  finish t s = fall (snapshot t (pump_binlog t s))

  -- From select on, where `fds` is what it leaves in the set.
  unfoldable pub serve :
      Turn d to_buffer tdb → (ℕ → Bool) → Session d to_buffer → Flow (Session d to_buffer)
  serve t fds s =
      expire t s
      >>= user_datagram d to_buffer tdb p t fds
      >>= engineer_datagram d to_buffer tdb p t fds
      >>= accept_user d to_buffer tdb p t fds
      >>= user_stream d to_buffer tdb p t fds
      >>= accept_engineer d to_buffer tdb p t fds
      >>= read_engineers d to_buffer tdb p t fds
      >>= finish t

  unfoldable pub answered :
      Turn d to_buffer tdb → Selected → Session d to_buffer → Flow (Session d to_buffer)
  answered t interrupted s = again s
  answered t silent s = leave s
  answered t (ready fds) s = serve t (λ fd. has_fd (watched d to_buffer s) fd && fds fd) s

  unfoldable pub turn : Turn d to_buffer tdb → Session d to_buffer → Flow (Session d to_buffer)
  turn t s = take_drops t s >>= check_user t >>= answered t t.selected

  unfoldable pub turns :
      List (Turn d to_buffer tdb) → Session d to_buffer → Flow (Session d to_buffer)
  turns [] s = fall s
  turns (t ∷ ts) s = resume (turn t s) (turns ts)

  -- keys.tdb after main_loop, where the turns end it; `none` where they do not, or the process dies.
  pub main_loop :
      List (Turn d to_buffer tdb) → Session d to_buffer → tdb.Db → Bool → Bool → Option tdb.Db
  main_loop ts s db opens allocates = elim (turns ts s) [
    | leave s' ↦ some (count_session tdb db opens allocates p.setup.port2 s'.count1 s'.count2)
    | fall s' ↦ none
    | again s' ↦ none
    | exits s' ↦ none
    | overrun s' ↦ none
  ]
