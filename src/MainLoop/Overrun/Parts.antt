-- ===== src/MainLoop/Overrun/Parts.antt =====
-- The parts of a round in which the bound of the loops goes beyond the slots.
use udpproxy.Prelude.{
  ℕ, ◌+◌, ◌<◌, ◌≡◌, refl, sym, subst, Bool, true, false, Option, none, some, List, [], ◌∷◌, arith,
  lt→ltb, length, All,
}
use udpproxy.Message.{Message, Dialect}
use udpproxy.Database.Tdb.{Tdb}
use udpproxy.MainLoop.{is_ready, Pair, Session, Turn}
use udpproxy.MainLoop.Flow.{overrun, Until}
use udpproxy.MainLoop.User.{user_datagram, accept_user, user_stream}
use udpproxy.MainLoop.Engineers.{
  with_table, take_engineer, known_datagram, engineer_datagram, accept_engineer, read_slot,
  read_from, read_engineers,
}
use udpproxy.MainLoop.Rounds.{expire}
use udpproxy.MainLoop.User.{inc32}
use udpproxy.Slots.{Slot, Table}
use udpproxy.Slots.Admission.{udp_engineer}
use udpproxy.Slots.Leak.{Idle}
use udpproxy.Slots.Crowd.{NotTcp, expire_udp-Idle, udp_engineer-Idle}

module _ (d : Dialect) (to_buffer : Message → List ℕ) (tdb : Tdb) (p : Pair d to_buffer) where
  -- A session without a user and with the counters at 100, whose sockets are those of s.
  pub record Crowded (s s' : Session d to_buffer) : Type 0 where
    pub conn : s'.have_conn1 ≡ false
    pub idle : Idle 100 s'.loop.table
    pub udp1 : s'.sock1_udp ≡ s.sock1_udp
    pub tcp1 : s'.sock1_tcp ≡ s.sock1_tcp
    pub udp2 : s'.sock2_udp ≡ s.sock2_udp
    pub listen2 : s'.sock2_listen ≡ s.sock2_listen

  -- A hundred slots without TCP connections, and the bound of the loops behind them.
  pub record Beyond (s s' : Session d to_buffer) : Type 0 where
    pub conn : s'.have_conn1 ≡ false
    pub plain : All NotTcp s'.loop.table.slots
    pub room : length s'.loop.table.slots ≡ 100
    pub high : s'.loop.table.max_conn2_count ≡ 101
    pub udp1 : s'.sock1_udp ≡ s.sock1_udp
    pub tcp1 : s'.sock1_tcp ≡ s.sock1_tcp
    pub listen2 : s'.sock2_listen ≡ s.sock2_listen

  module _ (s : Session d to_buffer) (t : Turn d to_buffer tdb) (fds : ℕ → Bool) where
    pub expire-Crowded :
        (u : Session d to_buffer) → Crowded s u → Until (Crowded s) (expire d to_buffer tdb p t u)
    unfolding expire with_table
    expire-Crowded u h =
        let r = expire_udp-Idle t.now u.loop.table h.idle in ground (arith, r.0, r.1)

    known_datagram-Beyond :
        (n : ℕ) (r : Option ℕ × Table) (u : Session d to_buffer)
        → (r.0 ≡ some 0)
          × All NotTcp (r.1).slots
          × (length (r.1).slots ≡ 100)
          × ((r.1).max_conn2_count ≡ 101)
        → Crowded s u
        → Until (Beyond s) (known_datagram d to_buffer tdb p t n r u)
    unfolding known_datagram take_engineer with_table
    known_datagram-Beyond n (none, tab) u f h = cc
    known_datagram-Beyond n (some i, tab) u f h = simp h.conn (record {
      conn = refl;
      plain = f.1;
      room = f.2;
      high = f.3;
      udp1 = h.udp1;
      tcp1 = h.tcp1;
      listen2 = h.listen2;
    })

    pub engineer_datagram-Beyond :
        (n : ℕ) (u : Session d to_buffer)
        → t.engineer_input.size ≡ some n
        → is_ready fds s.sock2_udp ≡ true
        → Crowded s u
        → Until (Beyond s) (engineer_datagram d to_buffer tdb p t fds u)
    unfolding engineer_datagram
    engineer_datagram-Beyond n u e r h =
        let known =
          known_datagram-Beyond n (udp_engineer t.engineer_from t.now t.clock u.loop.table)
            (record u { count2 = inc32 u.count2 })
            (udp_engineer-Idle t.engineer_from t.now t.clock u.loop.table h.idle)
            (record {
              conn = h.conn;
              idle = h.idle;
              udp1 = h.udp1;
              tcp1 = h.tcp1;
              udp2 = h.udp2;
              listen2 = h.listen2;
            }) in
        let here = subst (λ o. is_ready fds o ≡ true) (sym h.udp2) r in simp (e, here) known

    read_from-overrun :
        (i : ℕ) (ss : List Slot) (u : Session d to_buffer)
        → All NotTcp ss
        → i + length ss < u.loop.table.max_conn2_count
        → read_from d to_buffer tdb p t fds i ss u ≡ overrun u
    unfolding read_from read_slot
    read_from-overrun i [] u h k = simp (lt→ltb i u.loop.table.max_conn2_count (omega arith))
    read_from-overrun i (slot ∷ ss) u h k = simp (
      h.0,
      lt→ltb i u.loop.table.max_conn2_count (omega arith),
      read_from-overrun (i + 1) ss u h.1 (omega arith),
    )

    -- The branches whose sockets are not ready.
    pub skip_user :
        (u : Session d to_buffer)
        → is_ready fds s.sock1_udp ≡ false
        → Crowded s u
        → Until (Crowded s) (user_datagram d to_buffer tdb p t fds u)
    unfolding user_datagram
    skip_user u e h = ground (arith, e, h.udp1)

    pub skip_accept :
        (u : Session d to_buffer)
        → is_ready fds s.sock1_tcp ≡ false
        → Beyond s u
        → Until (Beyond s) (accept_user d to_buffer tdb p t fds u)
    unfolding accept_user
    skip_accept u e h = ground (arith, e)

    pub skip_stream :
        (u : Session d to_buffer)
        → is_ready fds s.sock1_tcp ≡ false
        → Beyond s u
        → Until (Beyond s) (user_stream d to_buffer tdb p t fds u)
    unfolding user_stream
    skip_stream u e h = ground (arith, e)

    pub skip_listen :
        (u : Session d to_buffer)
        → is_ready fds s.sock2_listen ≡ false
        → Beyond s u
        → Until (Beyond s) (accept_engineer d to_buffer tdb p t fds u)
    unfolding accept_engineer
    skip_listen u e h = ground (arith, e)

    pub read_engineers-overrun :
        (u : Session d to_buffer)
        → Beyond s u
        → Until (λ v. ⊥) (read_engineers d to_buffer tdb p t fds u)
    unfolding read_engineers
    read_engineers-overrun u h =
        let e = read_from-overrun 0 u.loop.table.slots u h.plain (omega (arith, h.room, h.high)) in
        subst (Until (λ v. ⊥)) (sym e) tt
