-- ===== src/Binlog/Pump/Justified.antt =====
-- What tick sends, and that it keeps the invariant.
use udpproxy.Prelude.{
  ℕ, zero, suc, ◌+◌, ◌≤◌, ◌<◌, ◌≡◌, refl, ◌≢◌, ◌⊎◌, inl, inr, Bool, false, none, some, List, [],
  ◌∷◌, arith, Bool-cases, Option-cases, All, All-append, All-imp,
}
use udpproxy.Message.{Dialect}
use udpproxy.Binlog.Bitmap.{seqno_seen}
use udpproxy.Binlog.Writer.{Writer, Nack, LogFile}
use udpproxy.Binlog.Invariant.{Inv, IsSeen, IsChased}
use udpproxy.Binlog.Pump.{
  StatusPacket, nack_giveup, nack_giveup_blocks, start_repeat, start_keepalive, max_nacks_per_tick,
  status_packet, send_start, start_due, maybe_start, is_stale, drop_stale, nack_due, sent_nack,
  send_nacks, ack_packets, pump, pump_open, tick,
}

-- Still worth asking for at `now`: not received, noticed within the last 60 s, and at most 200
-- blocks behind the highest.
abbrev IsWanted : Writer → ℕ → Nack → Type 0
IsWanted w now k =
    IsChased w k
    × (now ≤ k.first_seen + nack_giveup)
    × (w.highest_seen ≤ k.seqno + nack_giveup_blocks)

-- The three kinds of packet that the writer may send.
abbrev pub IsJustified : Dialect → Writer → ℕ → StatusPacket → Type 0
IsJustified d w now p =
    (p ≡ status_packet w d.block_start d.status_ack)
    ⊎ ((s : ℕ) × (p ≡ status_packet w s d.status_ack) × IsSeen w s)
    ⊎ ((s : ℕ) × (p ≡ status_packet w s d.status_nack)
        × (seqno_seen w.seen_bitmap s ≡ false)
        × (s < w.highest_seen)
        × (w.highest_seen ≤ s + nack_giveup_blocks))

drop_stale-IsWanted :
    (w : Writer) (now : ℕ) (ks : List Nack)
    → All (IsChased w) ks
    → All (IsWanted w now) (drop_stale w.seen_bitmap w.highest_seen now ks)
unfolding drop_stale
drop_stale-IsWanted w now [] h = tt
drop_stale-IsWanted w now (k ∷ ks) h =
    elim (Bool-cases (is_stale w.seen_bitmap w.highest_seen now k)) [
      | inl e ↦ rw e (drop_stale-IsWanted w now ks h.1)
      | inr e ↦ rw e (wanted e, drop_stale-IsWanted w now ks h.1)
    ]
  where
    wanted : is_stale w.seen_bitmap w.highest_seen now k ≡ false → IsWanted w now k
    wanted e = unfold is_stale in ground arith

module _ {κ} (P : StatusPacket → Type κ) (packet : ℕ → StatusPacket) where
  ack_packets-All :
      (ss : List ℕ) (Q : ℕ → Type 0)
      → ((s : ℕ) → Q s → P (packet s))
      → All Q ss
      → All P (ack_packets packet ss)
  unfolding ack_packets
  ack_packets-All [] Q f h = tt
  ack_packets-All (s ∷ ss) Q f h = (f s h.0, ack_packets-All ss Q f h.1)

module _ (P : Nack → Type 0) (R : StatusPacket → Type 0) (packet : ℕ → StatusPacket)
    (accepts : StatusPacket → Bool) (now : ℕ) (sent : (k : Nack) → P k → P (sent_nack now k))
    (named : (k : Nack) → P k → R (packet k.seqno)) where
  -- The loop keeps a property of the entries, and each packet is of an entry that had it.
  send_nacks-All :
      (budget : ℕ) (ks : List Nack)
      → All P ks
      → All P (send_nacks packet accepts now budget ks).0
        × All R (send_nacks packet accepts now budget ks).1
  unfolding send_nacks
  send_nacks-All zero [] h = (tt, tt)
  send_nacks-All (suc budget) [] h = (tt, tt)
  send_nacks-All zero (k ∷ ks) h = (h, tt)
  send_nacks-All (suc budget) (k ∷ ks) h = elim (Bool-cases (nack_due now k)) [
    | inr e ↦ let rest = send_nacks-All (suc budget) ks h.1 in rw e ((h.0, rest.0), rest.1)
    | inl e ↦ elim (Bool-cases (accepts (packet k.seqno))) [
      | inr e' ↦
          let rest = send_nacks-All (suc budget) ks h.1 in
          rw (e, e') ((h.0, rest.0), (named k h.0, rest.1))
      | inl e' ↦
          let rest = send_nacks-All budget ks h.1 in
          rw (e, e') ((sent k h.0, rest.0), (named k h.0, rest.1))
    ]
  ]

maybe_start_cases :
    (d : Dialect) (accepts : StatusPacket → Bool) (now interval : ℕ) (w : Writer)
    → (maybe_start d accepts now interval w ≡ (w, []))
      ⊎ ((last : ℕ) × (maybe_start d accepts now interval w ≡ (
        record w { last_start_sent = last },
        status_packet w d.block_start d.status_ack ∷ [],
      )))
unfolding maybe_start send_start
maybe_start_cases d accepts now interval w = elim (Bool-cases (start_due w now interval)) [
  | inr e ↦ inl (rw e refl)
  | inl e ↦ elim (Bool-cases (accepts (status_packet w d.block_start d.status_ack))) [
    | inl e' ↦ inr (now, rw (e, e') refl)
    | inr e' ↦ inr (w.last_start_sent, rw (e, e') refl)
  ]
]

module _ (d : Dialect) (accepts : StatusPacket → Bool) (now : ℕ) (w : Writer) (v : Inv w) where
  pump_nacks :
      let r =
        send_nacks
          (λ s. status_packet w s d.status_nack)
          accepts
          now
          max_nacks_per_tick
          (drop_stale w.seen_bitmap w.highest_seen now w.nack_state) in
      All (IsWanted w now) r.0 × All (IsJustified d w now) r.1
  unfolding sent_nack
  pump_nacks =
      send_nacks-All (IsWanted w now) (IsJustified d w now) (λ s. status_packet w s d.status_nack)
        accepts now (λ k h. h) (λ k h. inr (inr (k.seqno, refl, h.0.0, h.0.1, h.2)))
        max_nacks_per_tick _ (drop_stale-IsWanted w now w.nack_state v.chased)

  pump-Inv : w.fp ≢ none → Inv (pump d accepts now w).0
  unfolding pump
  pump-Inv opened = record {
    bytes = v.bytes;
    below = v.below;
    acked = tt;
    chased = All-imp (IsWanted w now) (IsChased w) _ (λ k h. h.0) pump_nacks.0;
    fresh = λ h. absurd (opened h);
  }

  pump-IsJustified : All (IsJustified d w now) (pump d accepts now w).1
  unfolding pump
  pump-IsJustified =
      All-append (IsJustified d w now) _ _
        (ack_packets-All (IsJustified d w now) _ w.pending_acks (IsSeen w)
          (λ s h. inr (inl (s, refl, h))) v.acked)
        pump_nacks.1

  pump_open_result :
      Inv (pump_open d accepts now w).0 × All (IsJustified d w now) (pump_open d accepts now w).1
  pump_open_result = elim (Option-cases w.fp) [
    | inl e ↦ rw (closed e) (v, tt)
    | inr (f, e) ↦ rw (opened f e) (pump-Inv (λ h. cc), pump-IsJustified)
  ]
    where
      closed : w.fp ≡ none → pump_open d accepts now w ≡ (w, [])
      closed e = unfold pump_open in ground arith

      opened : (f : LogFile) → w.fp ≡ some f → pump_open d accepts now w ≡ pump d accepts now w
      opened f e = unfold pump_open in ground arith

started-Inv : (w : Writer) (last : ℕ) → Inv w → Inv (record w { last_start_sent = last })
started-Inv w last v = record {
  bytes = v.bytes;
  below = v.below;
  acked = v.acked;
  chased = v.chased;
  fresh = v.fresh;
}

module _ (d : Dialect) (accepts : StatusPacket → Bool) (now : ℕ) (w : Writer) (v : Inv w) where
  tick_result : Inv (tick d accepts now w).0 × All (IsJustified d w now) (tick d accepts now w).1
  unfolding tick
  tick_result = elim (Bool-cases w.any_block_seen) [
    | inr e ↦ simp e (elim (maybe_start_cases d accepts now start_repeat w) [
      | inl s ↦ rw s (v, tt)
      | inr (last, s) ↦ rw s (started-Inv w last v, (inl refl, tt))
    ])
    | inl e ↦ simp e (elim (maybe_start_cases d accepts now start_keepalive w) [
      | inl s ↦ rw s (pump_open_result d accepts now w v)
      | inr (last, s) ↦
          let r =
            pump_open_result d accepts now (record w { last_start_sent = last })
              (started-Inv w last v) in
          rw s (r.0, (inl refl, r.1))
    ])
  ]

  -- tick keeps the invariant.
  pub tick-Inv : Inv (tick d accepts now w).0
  tick-Inv = tick_result.0

  -- Every packet that tick hands to the link, in a writer with the invariant, is the START packet, or
  -- an ACK of a block that was received, or a NACK of a block below the highest, and at most 200
  -- below it, that was not received.
  pub tick-IsJustified : All (IsJustified d w now) (tick d accepts now w).1
  tick-IsJustified = tick_result.1

pub tick-same_file :
    (d : Dialect) (accepts : StatusPacket → Bool) (now : ℕ) (w : Writer)
    → ((tick d accepts now w).0.fp ≡ w.fp)
      × ((tick d accepts now w).0.current_file_size ≡ w.current_file_size)
unfolding tick maybe_start send_start pump_open pump
tick-same_file d accepts now w = ground arith
