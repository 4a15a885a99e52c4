-- ===== src/Binlog/Receive.antt =====
-- handle_block and queue_gap_nacks of binlog.cpp.
pub mod Effects
pub mod Keeps
pub mod Stored
mod Blocks
pub mod Limits
use udpproxy.Prelude.{
  ℕ, zero, suc, ◌+◌, ◌-◌, ◌*◌, ◌%◌, ◌^◌, max, Bool, true, false, not, ◌&&◌, Option, none, some,
  List, [], ◌∷◌, ◌++◌, ltb, leb, ◌==◌, if◌then◌else◌, take,
}
use udpproxy.Message.{Message, Block, Dialect}
use udpproxy.Session.Names.{Tree}
use udpproxy.Binlog.Bitmap.{seqno_seen, mark_seqno_seen}
use udpproxy.Binlog.Writer.{
  Writer, Nack, LogFile, Host, write_at, open_log, refresh_other_sessions_bytes,
}

abbrev pub block_bytes : ℕ
block_bytes = 200

abbrev pub max_forward_jump_bytes : ℕ
max_forward_jump_bytes = 100 * 1024 * 1024

abbrev pub max_per_port2_bytes : ℕ
max_per_port2_bytes = 1024 * 1024 * 1024

-- uint32_t addition.
abbrev pub u32 : ℕ → ℕ
u32 n = n % 2 ^ 32

-- `nack_state.find(s) != end()`.
pub has_nack : ℕ → List Nack → Bool
has_nack s [] = false
has_nack s (k ∷ ks) = if k.seqno == s then true else has_nack s ks

-- `nack_state.erase(s)`.
pub erase_nack : ℕ → List Nack → List Nack
erase_nack s [] = []
erase_nack s (k ∷ ks) = if k.seqno == s then erase_nack s ks else k ∷ erase_nack s ks

-- One round of the loop of queue_gap_nacks.
pub seed_nack : List ℕ → ℕ → ℕ → List Nack → List Nack
seed_nack bitmap now s ks =
    if seqno_seen bitmap s
    then ks
    else if has_nack s ks
    then ks
    else record { seqno = s; first_seen = now; last_sent = 0 } ∷ ks

-- `for (s = prev_highest + 1; s < new_seqno; s++)`, with the rounds that are left.
pub seed_nacks : List ℕ → ℕ → ℕ → ℕ → List Nack → List Nack
seed_nacks bitmap now zero s ks = ks
seed_nacks bitmap now (suc rounds) s ks =
    seed_nacks bitmap now rounds (s + 1) (seed_nack bitmap now s ks)

pub queue_gap_nacks : Writer → ℕ → ℕ → ℕ → Writer
queue_gap_nacks w prev_highest new_seqno now = record w {
  nack_state =
      seed_nacks w.seen_bitmap now (new_seqno - u32 (prev_highest + 1)) (u32 (prev_highest + 1))
        w.nack_state;
}

-- The strict-start gate. `none`: the call returns early, with the writer as it was.
unfoldable pub start_gate : Writer → Host → ℕ → ℕ → ℕ → Option Writer
start_gate w host port2 session_n seqno = elim w.fp [
  | some f ↦ some w
  | none ↦
      if seqno == 0
      then elim (open_log w port2
          (if w.pending_session_n == 0 then session_n else w.pending_session_n) host) [
            | none ↦ none
            | some w' ↦ some (record w' { pending_session_n = 0 })
          ]
      else none
]

unfoldable pub prospective_size : Writer → ℕ → ℕ
prospective_size w seqno = max w.current_file_size (seqno * block_bytes + block_bytes)

unfoldable pub over_jump : Writer → ℕ → Bool
over_jump w seqno = ltb max_forward_jump_bytes (prospective_size w seqno - w.current_file_size)

unfoldable pub over_quota : Writer → ℕ → Bool
over_quota w seqno = ltb max_per_port2_bytes (w.other_sessions_bytes + prospective_size w seqno)

-- The vehicle's identity, from the first block.
unfoldable pub latch : Writer → Message → Writer
latch w msg = if w.any_block_seen then w else record w {
  target_system = msg.sysid;
  target_component = msg.compid;
  any_block_seen = true;
}

-- `if (++writes_since_quota_refresh_ >= 10000)`.
pub count_write : Writer → Tree → Writer
count_write w tree =
    if leb 10000 (w.writes_since_quota_refresh + 1)
    then record (refresh_other_sessions_bytes w tree) { writes_since_quota_refresh = 0 }
    else record w { writes_since_quota_refresh = w.writes_since_quota_refresh + 1 }

-- Marked seen, and no longer chased by NACKs.
pub note_seen : Writer → ℕ → Writer
note_seen w seqno = record w {
  seen_bitmap = mark_seqno_seen w.seen_bitmap seqno;
  nack_state = erase_nack seqno w.nack_state;
}

pub is_forward_jump : Writer → Bool → ℕ → Bool
is_forward_jump w was_seen seqno =
    (w.any_block_seen && ltb (u32 (w.highest_seen + 1)) seqno)
    && not (((w.highest_seen == 0) && not was_seen) && (seqno == 0))

pub note_gap : Writer → Bool → ℕ → ℕ → Writer
note_gap w was_seen seqno now =
    if is_forward_jump w was_seen seqno then queue_gap_nacks w w.highest_seen seqno now else w

pub raise_highest : Writer → ℕ → Writer
raise_highest w seqno = if leb w.highest_seen seqno then record w { highest_seen = seqno } else w

pub queue_ack : Writer → ℕ → Writer
queue_ack w seqno = record w { pending_acks = w.pending_acks ++ seqno ∷ [] }

-- What follows a complete write.
pub book_block : Writer → Host → ℕ → Writer
book_block w host seqno =
    let counted = count_write w host.tree in
    let was_seen = seqno_seen counted.seen_bitmap seqno in
    queue_ack (raise_highest (note_gap (note_seen counted seqno) was_seen seqno host.now) seqno)
      seqno

-- fseeko and fwrite. A short write leaves its bytes in the file, and no acknowledgement.
unfoldable pub store_block : Writer → LogFile → Host → Block → ℕ → Writer
store_block w f host blk size =
    if host.seek_ok
    then (let written = record w {
      fp = some (write_at f (blk.seqno * block_bytes) (take host.wrote blk.bytes));
    } in
        if host.wrote == block_bytes
        then book_block (record written { current_file_size = size }) host blk.seqno
        else written)
    else w

-- After the gate: the two caps, then the write.
unfoldable pub take_block : Writer → LogFile → Host → Message → Block → Writer
take_block w f host msg blk =
    if over_jump w blk.seqno
    then w
    else if over_quota w blk.seqno
    then w
    else store_block (latch w msg) f host blk (prospective_size w blk.seqno)

unfoldable pub gated_block : Writer → Host → Message → Block → Writer
gated_block w host msg blk = elim w.fp [ none ↦ w | some f ↦ take_block w f host msg blk ]

unfoldable pub handle_block : Dialect → Writer → Host → ℕ → ℕ → Message → Writer
handle_block d w host port2 session_n msg =
    let blk = d.decode_block msg in
    elim (start_gate w host port2 session_n blk.seqno) [
      | none ↦ w
      | some w' ↦ gated_block w' host msg blk
    ]
