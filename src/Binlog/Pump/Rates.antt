-- ===== src/Binlog/Pump/Rates.antt =====
-- How often tick sends: NACKs in one call, START packets over time.
use udpproxy.Prelude.{
  ℕ, zero, suc, ◌+◌, ◌*◌, ◌≤◌, ◌≡◌, refl, ◌⊎◌, inl, inr, Bool, true, false, List, [], ◌∷◌, ◌++◌,
  arith, leb, if◌then◌else◌, Bool-cases, length, All,
}
use udpproxy.Message.{Dialect}
use udpproxy.Binlog.Writer.{Writer, Nack}
use udpproxy.Binlog.Pump.{
  StatusPacket, start_repeat, max_nacks_per_tick, status_packet, send_start, start_due, maybe_start,
  drop_stale, send_nacks, ack_packets, pump, tick,
}

-- How many of the packets went out.
pub count_accepted : (StatusPacket → Bool) → List StatusPacket → ℕ
count_accepted accepts [] = 0
count_accepted accepts (p ∷ ps) =
    let rest = count_accepted accepts ps in if accepts p then suc rest else rest

-- The loop lets no more NACKs out than its budget, and its entries are as many as before.
count_accepted-send_nacks :
    (packet : ℕ → StatusPacket) (accepts : StatusPacket → Bool) (now budget : ℕ) (ks : List Nack)
    → count_accepted accepts (send_nacks packet accepts now budget ks).1 ≤ budget
unfolding send_nacks count_accepted
count_accepted-send_nacks packet accepts now zero [] = omega arith
count_accepted-send_nacks packet accepts now (suc budget) [] = omega arith
count_accepted-send_nacks packet accepts now zero (k ∷ ks) = omega arith
count_accepted-send_nacks packet accepts now (suc budget) (k ∷ ks) = ground (
  arith,
  count_accepted-send_nacks packet accepts now (suc budget) ks,
  count_accepted-send_nacks packet accepts now budget ks,
)

count_accepted-append :
    (accepts : StatusPacket → Bool) (ps qs : List StatusPacket)
    → count_accepted accepts (ps ++ qs) ≡ count_accepted accepts ps + count_accepted accepts qs
unfolding count_accepted
count_accepted-append accepts [] qs = omega arith
count_accepted-append accepts (p ∷ ps) qs = ground (arith, count_accepted-append accepts ps qs)

length-ack_packets :
    (packet : ℕ → StatusPacket) (accepts : StatusPacket → Bool) (ss : List ℕ)
    → count_accepted accepts (ack_packets packet ss) ≤ length ss
unfolding ack_packets count_accepted
length-ack_packets packet accepts [] = omega arith
length-ack_packets packet accepts (s ∷ ss) = ground (arith, length-ack_packets packet accepts ss)

-- The packets of the pump that go out are at most the acknowledgements that were pending and ten
-- NACKs, whatever the number of missing blocks, and no acknowledgement is pending afterwards.
pub pump_bounded :
    (d : Dialect) (accepts : StatusPacket → Bool) (now : ℕ) (w : Writer)
    → (count_accepted accepts (pump d accepts now w).1 ≤ length w.pending_acks + max_nacks_per_tick)
      × ((pump d accepts now w).0.pending_acks ≡ [])
unfolding pump
pump_bounded d accepts now w = (
  omega (
    arith,
    count_accepted-append accepts,
    length-ack_packets (λ s. status_packet w s d.status_ack) accepts w.pending_acks,
    count_accepted-send_nacks (λ s. status_packet w s d.status_nack) accepts now max_nacks_per_tick
        (drop_stale w.seen_bitmap w.highest_seen now w.nack_state),
  ),
  refl,
)

-- tick at each of these times, in turn, with every packet going out: the packets sent.
pub run_ticks : Dialect → List ℕ → Writer → List StatusPacket
run_ticks d [] w = []
run_ticks d (now ∷ times) w = let r = tick d (λ p. true) now w in r.1 ++ run_ticks d times r.0

-- What one tick does before the first block.
waiting_tick :
    (d : Dialect) (now : ℕ) (w : Writer)
    → w.any_block_seen ≡ false
    → (tick d (λ p. true) now w ≡ (w, []))
      ⊎ ((w.last_start_sent + start_repeat ≤ now)
          × (tick d (λ p. true) now w ≡ (
            record w { last_start_sent = now },
            status_packet w d.block_start d.status_ack ∷ [],
          )))
unfolding tick maybe_start send_start start_due
waiting_tick d now w waiting = elim (Bool-cases (leb (w.last_start_sent + start_repeat) now)) [
  | inl e ↦ inr (ground arith, simp (waiting, e))
  | inr e ↦ inl (simp (waiting, e))
]

-- While no block has arrived, and every packet goes out, ticks up to the time `end` send at most one
-- START for each second that has passed since the last one: `count` packets take up `count` seconds.
pub starts_spaced :
    (d : Dialect) (end : ℕ) (times : List ℕ) (w : Writer)
    → w.any_block_seen ≡ false
    → All (λ t. t ≤ end) times
    → (length (run_ticks d times w) ≡ 0)
      ⊎ (w.last_start_sent + length (run_ticks d times w) * start_repeat ≤ end)
unfolding run_ticks
starts_spaced d end [] w waiting h = inl refl
starts_spaced d end (now ∷ times) w waiting h = elim (waiting_tick d now w waiting) [
  | inl e ↦ rw e (starts_spaced d end times w waiting h.1)
  | inr (due, e) ↦
      rw e (elim (starts_spaced d end times (record w { last_start_sent = now }) waiting h.1) [
        | inl z ↦ inr (omega arith)
        | inr later ↦ inr (omega arith)
      ])
]
