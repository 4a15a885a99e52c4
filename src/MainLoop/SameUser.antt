-- ===== src/MainLoop/SameUser.antt =====
-- What the parts of a round of main_loop that concern the engineers leave alone.
use udpproxy.Prelude.{
  ℕ, ◌+◌, ◌≡◌, ◌⊎◌, inl, inr, Bool, true, false, ◌&&◌, Option, none, some, List, [], ◌∷◌, arith,
  ltb, ◌==◌, Option-cases, if-both,
}
use udpproxy.Message.{Message, Dialect}
use udpproxy.Database.Tdb.{Tdb}
use udpproxy.Drops.{process_requests}
use udpproxy.MainLoop.User.{inc32, is_eof}
use udpproxy.MainLoop.{or_zero, is_ready, Pair, Session, Relayed, Turn}
use udpproxy.MainLoop.Flow.{Flow, After, Keeps, Keeps-map}
use udpproxy.MainLoop.Engineers.{
  with_table, engineer_message, engineer_messages, take_engineer, known_datagram, engineer_datagram,
  accept_engineer, read_ready, read_slot, read_from, read_engineers, if_failed, on_slot, set_active,
}
use udpproxy.MainLoop.Rounds.{take_drops, expire}
use udpproxy.Slots.Admission.{is_tcp}
use udpproxy.Slots.{Slot, Table}

module _ (d : Dialect) (to_buffer : Message → List ℕ) where
  -- What is logged, forwarded and counted of messages.
  pub record SameTraffic (s s' : Session d to_buffer) : Type 0 where
    pub tlog : s'.loop.tlog ≡ s.loop.tlog
    pub rx : s'.loop.mav1_rx_msgs ≡ s.loop.mav1_rx_msgs
    pub passed : s'.loop.passed ≡ s.loop.passed
    pub tx : s'.mav1_tx_msgs ≡ s.mav1_tx_msgs

  -- The user's side, the dataflash log and what was sent for it, the snapshots and the listening
  -- socket are as they were; where there is no user, so is the traffic.
  pub record SameUser (s s' : Session d to_buffer) : Type 0 where
    pub conn : s'.have_conn1 ≡ s.have_conn1
    pub mav : s'.mav1 ≡ s.mav1
    pub mav_ws : s'.mav1_ws ≡ s.mav1_ws
    pub over_tcp : s'.mav1_is_tcp ≡ s.mav1_is_tcp
    pub ws : s'.ws_ssl ≡ s.ws_ssl
    pub udp : s'.sock1_udp ≡ s.sock1_udp
    pub tcp : s'.sock1_tcp ≡ s.sock1_tcp
    pub last : s'.last_pkt1 ≡ s.last_pkt1
    pub count : s'.count1 ≡ s.count1
    pub listen2 : s'.sock2_listen ≡ s.sock2_listen
    pub binlog : s'.loop.binlog ≡ s.loop.binlog
    pub pumped : s'.pumped ≡ s.pumped
    pub saved : s'.saved ≡ s.saved
    pub traffic : (s.have_conn1 ≡ true) ⊎ SameTraffic s s'

  pub SameUser-refl : (s : Session d to_buffer) → SameUser s s
  SameUser-refl s = ground arith

  pub SameUser-trans : (s t u : Session d to_buffer) → SameUser s t → SameUser t u → SameUser s u
  SameUser-trans s t u v w = ground arith

module _ (d : Dialect) (to_buffer : Message → List ℕ) (tdb : Tdb) (p : Pair d to_buffer) where
  with_table-SameUser :
      (t : Table) (s : Session d to_buffer)
      → SameUser d to_buffer s (with_table d to_buffer tdb p t s)
  unfolding with_table
  with_table-SameUser t s = ground arith

  engineer_messages-SameUser :
      (i : ℕ) (ms : List (Relayed d to_buffer)) (s : Session d to_buffer)
      → s.have_conn1 ≡ true
      → SameUser d to_buffer s (engineer_messages d to_buffer tdb p i ms s).1
  unfolding engineer_messages engineer_message
  engineer_messages-SameUser i [] s h = SameUser-refl d to_buffer s
  engineer_messages-SameUser i (m ∷ ms) s h =
      ground (arith, engineer_messages-SameUser i ms (engineer_message d to_buffer tdb p i m s))

  take_engineer-SameUser :
      (i : ℕ) (ms : List (Relayed d to_buffer)) (s : Session d to_buffer)
      → SameUser d to_buffer s (take_engineer d to_buffer tdb p i ms s).1
  unfolding take_engineer
  take_engineer-SameUser i ms s =
      ground (arith, engineer_messages-SameUser i ms s, SameUser-refl d to_buffer s)

  if_failed-Keeps :
      (P : Session d to_buffer → Type 0) (r : Bool × Session d to_buffer)
      → P r.1
      → Keeps P (if_failed d to_buffer tdb p r)
  if_failed-Keeps P (true, s) h = tt
  if_failed-Keeps P (false, s) h = h

  Keeps-trans :
      (s s' : Session d to_buffer) (m : Flow (Session d to_buffer))
      → SameUser d to_buffer s s'
      → Keeps (SameUser d to_buffer s') m
      → Keeps (SameUser d to_buffer s) m
  Keeps-trans s s' m v h =
      Keeps-map (SameUser d to_buffer s') (SameUser d to_buffer s) m
        (λ u w. SameUser-trans d to_buffer s s' u v w) h

  module _ (t : Turn d to_buffer tdb) (fds : ℕ → Bool) where
    known_datagram-SameUser :
        (n : ℕ) (r : Option ℕ × Table) (s : Session d to_buffer)
        → Keeps (SameUser d to_buffer s) (known_datagram d to_buffer tdb p t n r s)
    unfolding known_datagram with_table
    known_datagram-SameUser n (none, table) s = SameUser-refl d to_buffer s
    known_datagram-SameUser n (some i, table) s =
        if_failed-Keeps (SameUser d to_buffer s) _
          (SameUser-trans d to_buffer s _ _ (ground arith) (take_engineer-SameUser i _ _))

    pub engineer_datagram-SameUser :
        (s : Session d to_buffer)
        → Keeps (SameUser d to_buffer s) (engineer_datagram d to_buffer tdb p t fds s)
    unfolding engineer_datagram
    engineer_datagram-SameUser s = elim (Option-cases t.engineer_input.size) [
      | inl e ↦ rw e (
          if-both (Keeps (SameUser d to_buffer s)) (is_ready fds s.sock2_udp) tt
            (SameUser-refl d to_buffer s))
      | inr (n, e) ↦ rw e (
          if-both (Keeps (SameUser d to_buffer s)) (is_ready fds s.sock2_udp)
            (Keeps-trans s (record s { count2 = inc32 s.count2 }) _ (ground arith)
              (known_datagram-SameUser n _ _))
            (SameUser-refl d to_buffer s))
    ]

    pub accept_engineer-SameUser :
        (s : Session d to_buffer)
        → Keeps (SameUser d to_buffer s) (accept_engineer d to_buffer tdb p t fds s)
    unfolding accept_engineer with_table
    accept_engineer-SameUser s = ground arith

    read_ready-SameUser :
        (i : ℕ) (over_ws : Bool) (s : Session d to_buffer)
        → SameUser d to_buffer s (read_ready d to_buffer tdb p t i over_ws s).1
    unfolding read_ready with_table
    read_ready-SameUser i over_ws s =
        let heard = record (with_table d to_buffer tdb p (on_slot i set_active s.loop.table) s) {
          count2 = inc32 s.count2;
        } in
        let P = λ (r : Bool × Session d to_buffer). SameUser d to_buffer s r.1 in
        if-both P (is_eof over_ws (t.readings i).bytes.size) (with_table-SameUser _ s) (
          if-both P (or_zero (t.readings i).bytes.size == 0) (SameUser-refl d to_buffer s) (
            SameUser-trans d to_buffer s heard _ (ground arith)
              (take_engineer-SameUser i (t.readings i).bytes.messages heard)))

    read_slot-SameUser :
        (i : ℕ) (slot : Slot) (s : Session d to_buffer)
        → SameUser d to_buffer s (read_slot d to_buffer tdb p t fds i slot s).1
    unfolding read_slot
    read_slot-SameUser i slot s =
        if-both (λ (r : Bool × Session d to_buffer). SameUser d to_buffer s r.1)
          (is_tcp slot && is_ready fds slot.sock)
          (SameUser-trans d to_buffer s _ _ (with_table-SameUser _ s) (read_ready-SameUser i _ _))
          (SameUser-refl d to_buffer s)

    read_from-SameUser :
        (i : ℕ) (ss : List Slot) (s : Session d to_buffer)
        → Keeps (SameUser d to_buffer s) (read_from d to_buffer tdb p t fds i ss s)
    unfolding read_from
    read_from-SameUser i [] s = ground (arith, SameUser-refl d to_buffer s)
    read_from-SameUser i (slot ∷ ss) s =
        let r = read_slot d to_buffer tdb p t fds i slot s in
        let same = read_slot-SameUser i slot s in
        let P = Keeps (SameUser d to_buffer s) in
        if-both P (ltb i s.loop.table.max_conn2_count)
          (if-both P r.0 same (Keeps-trans s r.1 _ same (read_from-SameUser (i + 1) ss r.1)))
          (SameUser-refl d to_buffer s)

    pub read_engineers-SameUser :
        (s : Session d to_buffer)
        → Keeps (SameUser d to_buffer s) (read_engineers d to_buffer tdb p t fds s)
    unfolding read_engineers
    read_engineers-SameUser s = read_from-SameUser 0 s.loop.table.slots s

    pub expire-SameUser :
        (s : Session d to_buffer) → Keeps (SameUser d to_buffer s) (expire d to_buffer tdb p t s)
    unfolding expire with_table
    expire-SameUser s = ground arith

  pub take_drops-SameUser :
      (t : Turn d to_buffer tdb) (P : Session d to_buffer → Type 0) (s : Session d to_buffer)
      → After P (SameUser d to_buffer s) (take_drops d to_buffer tdb p t s)
  unfolding take_drops
  take_drops-SameUser t P s = elim (Option-cases t.signal) [
    | inl e ↦ rw e (SameUser-refl d to_buffer s)
    | inr ((opens, db), e) ↦ rw e (
        if-both (After P (SameUser d to_buffer s))
          (process_requests tdb opens t.commits p.setup.port2 db s.loop.table).1.0 tt
          (with_table-SameUser _ s))
  ]
