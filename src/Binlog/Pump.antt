-- ===== src/Binlog/Pump.antt =====
-- tick, send_status, send_start_packet and drop_stale_nack_state of binlog.cpp. Times are in
-- microseconds. What send_buf answers is the argument `accepts`: whether the whole packet went out.
pub mod Justified
pub mod Rates
use udpproxy.Prelude.{
  ℕ, zero, suc, ◌+◌, ◌-◌, Bool, ◌&&◌, ◌||◌, none, some, List, [], ◌∷◌, ◌++◌, ltb, leb, ◌==◌,
  if◌then◌else◌,
}
use udpproxy.Message.{Dialect}
use udpproxy.Binlog.Bitmap.{seqno_seen}
use udpproxy.Binlog.Writer.{Writer, Nack}

-- A REMOTE_LOG_BLOCK_STATUS as it is packed.
pub record StatusPacket : Type 0 where
  pub target_system : ℕ
  pub target_component : ℕ
  pub seqno : ℕ
  pub status : ℕ

abbrev pub max_nacks_per_tick : ℕ
max_nacks_per_tick = 10

abbrev pub nack_repeat : ℕ
nack_repeat = 100_000

abbrev pub nack_giveup : ℕ
nack_giveup = 60_000_000

abbrev pub nack_giveup_blocks : ℕ
nack_giveup_blocks = 200

abbrev pub start_repeat : ℕ
start_repeat = 1_000_000

abbrev pub start_keepalive : ℕ
start_keepalive = 5_000_000

abbrev pub status_packet : Writer → ℕ → ℕ → StatusPacket
status_packet w seqno status = record {
  target_system = w.target_system;
  target_component = w.target_component;
  seqno = seqno;
  status = status;
}

-- send_start_packet, and `last_start_sent_s = now_s` if it went out.
pub send_start : Dialect → (StatusPacket → Bool) → ℕ → Writer → Writer × List StatusPacket
send_start d accepts now w =
    let packet = status_packet w d.block_start d.status_ack in
    (if accepts packet then record w { last_start_sent = now } else w, packet ∷ [])

-- The throttle of the two START phases.
pub start_due : Writer → ℕ → ℕ → Bool
start_due w now interval = leb (w.last_start_sent + interval) now

pub maybe_start : Dialect → (StatusPacket → Bool) → ℕ → ℕ → Writer → Writer × List StatusPacket
maybe_start d accepts now interval w =
    if start_due w now interval then send_start d accepts now w else (w, [])

-- The three reasons to stop chasing a block.
pub is_stale : List ℕ → ℕ → ℕ → Nack → Bool
is_stale bitmap highest now k =
    seqno_seen bitmap k.seqno
    || (ltb (k.first_seen + nack_giveup) now
        || (leb k.seqno highest && ltb nack_giveup_blocks (highest - k.seqno)))

pub drop_stale : List ℕ → ℕ → ℕ → List Nack → List Nack
drop_stale bitmap highest now [] = []
drop_stale bitmap highest now (k ∷ ks) =
    if is_stale bitmap highest now k
    then drop_stale bitmap highest now ks
    else k ∷ drop_stale bitmap highest now ks

-- Never sent, or sent long enough ago.
pub nack_due : ℕ → Nack → Bool
nack_due now k = k.last_sent == 0 || leb (k.last_sent + nack_repeat) now

pub sent_nack : ℕ → Nack → Nack
sent_nack now k = record k { last_sent = now }

-- The loop over nack_state, with the budget that is left: the entries after it, and the packets in
-- the order in which they were handed to send_buf. `packet` builds the NACK of a seqno.
pub send_nacks :
    (ℕ → StatusPacket) → (StatusPacket → Bool) → ℕ → ℕ → List Nack → List Nack × List StatusPacket
send_nacks packet accepts now budget [] = ([], [])
send_nacks packet accepts now zero (k ∷ ks) = (k ∷ ks, [])
send_nacks packet accepts now (suc budget) (k ∷ ks) =
    let skipped = send_nacks packet accepts now (suc budget) ks in
    let sent = send_nacks packet accepts now budget ks in
    if nack_due now k
    then (if accepts (packet k.seqno)
        then (sent_nack now k ∷ sent.0, packet k.seqno ∷ sent.1)
        else (k ∷ skipped.0, packet k.seqno ∷ skipped.1))
    else (k ∷ skipped.0, skipped.1)

-- `while (!pending_acks.empty())`: one packet each, whatever send_buf answers.
pub ack_packets : (ℕ → StatusPacket) → List ℕ → List StatusPacket
ack_packets packet [] = []
ack_packets packet (s ∷ ss) = packet s ∷ ack_packets packet ss

-- The part of tick() that follows the START phases, with the file open.
pub pump : Dialect → (StatusPacket → Bool) → ℕ → Writer → Writer × List StatusPacket
pump d accepts now w =
    let nacks =
      send_nacks (λ s. status_packet w s d.status_nack) accepts now max_nacks_per_tick
        (drop_stale w.seen_bitmap w.highest_seen now w.nack_state) in
    (
      record w { pending_acks = []; nack_state = nacks.0 },
      ack_packets (λ s. status_packet w s d.status_ack) w.pending_acks ++ nacks.1,
    )

pub pump_open : Dialect → (StatusPacket → Bool) → ℕ → Writer → Writer × List StatusPacket
pump_open d accepts now w = elim w.fp [ none ↦ (w, []) | some f ↦ pump d accepts now w ]

pub tick : Dialect → (StatusPacket → Bool) → ℕ → Writer → Writer × List StatusPacket
tick d accepts now w =
    if w.any_block_seen
    then (let started = maybe_start d accepts now start_keepalive w in
        let pumped = pump_open d accepts now started.0 in (pumped.0, started.1 ++ pumped.1))
    else maybe_start d accepts now start_repeat w
