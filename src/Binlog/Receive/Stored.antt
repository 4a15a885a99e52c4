-- ===== src/Binlog/Receive/Stored.antt =====
-- What handle_block does with a block that it accepts, and what an acknowledgement means.
use udpproxy.Prelude.{
  ℕ, zero, suc, ◌+◌, ◌-◌, ◌*◌, ◌^◌, ◌<◌, ◌≡◌, refl, ap, ◌∙◌, Bool, true, false, ◌||◌, some, List,
  [], ◌∷◌, ◌++◌, arith, ◌==◌, if◌then◌else◌, length, take,
}
use udpproxy.Message.{Message, Block, Dialect}
use udpproxy.Binlog.Bitmap.{seqno_seen, mark_seqno_seen, seqno_seen-mark}
use udpproxy.Binlog.Writer.{Writer, Host, LogFile, write_at}
use udpproxy.Binlog.Invariant.{Inv}
use udpproxy.Binlog.Receive.{
  has_nack, is_forward_jump, book_block, latch, prospective_size, store_block, over_jump,
  over_quota, take_block, gated_block, handle_block, block_bytes,
}
use udpproxy.Binlog.Receive.Blocks.{read_block, write_at-read_block}
use udpproxy.Binlog.Receive.Effects.{
  Booked, book_block-Booked, has_nack-seed_nacks, start_gate-open,
}

take_all {ℓ} : {A : Type ℓ} (n : ℕ) (xs : List A) → length xs ≡ n → take n xs ≡ xs
take_all zero [] h = refl
take_all zero (x ∷ xs) h = absurd (omega arith)
take_all (suc n) [] h = refl
take_all (suc n) (x ∷ xs) h = ap (◌∷◌ x) (take_all n xs (omega arith))

pub gated_block-open :
    (w : Writer) (f : LogFile) (host : Host) (msg : Message) (blk : Block)
    → w.fp ≡ some f
    → gated_block w host msg blk ≡ take_block w f host msg blk
unfolding gated_block
gated_block-open w f host msg blk h = ground arith

-- The caps let the block through and the system writes it whole.
pub record IsAccepted (d : Dialect) (w : Writer) (host : Host) (msg : Message) : Type 0 where
  pub jump_ok : over_jump w (d.decode_block msg).seqno ≡ false
  pub quota_ok : over_quota w (d.decode_block msg).seqno ≡ false
  pub seeks : host.seek_ok ≡ true
  pub writes : host.wrote ≡ 200
  pub whole : length (d.decode_block msg).bytes ≡ 200

module _ (d : Dialect) (w : Writer) (f : LogFile) (host : Host) (port2 n : ℕ) (msg : Message)
    (here : w.fp ≡ some f) (a : IsAccepted d w host msg) where
  abbrev blk : Block
  blk = d.decode_block msg

  abbrev written : LogFile
  written = write_at f (blk.seqno * block_bytes) (take host.wrote blk.bytes)

  -- The writer that the accepted block is booked in.
  abbrev ready : Writer
  ready = record (latch w msg) {
    fp = some written;
    current_file_size = prospective_size w blk.seqno;
  }

  store_ready :
      (v : Writer) (size : ℕ)
      → store_block v f host blk size
        ≡ book_block (record v { fp = some written; current_file_size = size }) host blk.seqno
  unfolding store_block
  store_ready v size = simp (a.seeks, a.writes)

  pub handle_block-accepted : handle_block d w host port2 n msg ≡ book_block ready host blk.seqno
  unfolding handle_block take_block
  handle_block-accepted =
      rw (start_gate-open w host port2 n f blk.seqno here, handle_block)
        (gated_block-open w f host msg blk here
          ∙ simp (a.jump_ok, a.quota_ok) (store_ready (latch w msg) _))

  booked : Booked ready host blk.seqno (handle_block d w host port2 n msg)
  booked = rw handle_block-accepted (book_block-Booked ready host blk.seqno)

-- The writer after an accepted block.
pub record Stored (d : Dialect) (w : Writer) (f : LogFile) (msg : Message) (w' : Writer)
    : Type 0 where
  pub file : LogFile
  pub file_eq : w'.fp ≡ some file
  -- The file holds the block's bytes at its place, and the bytes of all other blocks as before.
  pub block_eq :
      (t : ℕ)
      → read_block file t
        ≡ (if t == (d.decode_block msg).seqno then (d.decode_block msg).bytes else read_block f t)
  -- One acknowledgement more is pending, at the end of the queue, and the block counts as received.
  pub acked_last : w'.pending_acks ≡ w.pending_acks ++ (d.decode_block msg).seqno ∷ []
  pub seen_more :
      (t : ℕ)
      → seqno_seen w'.seen_bitmap t
        ≡ (t == (d.decode_block msg).seqno || seqno_seen w.seen_bitmap t)

is_forward_jump_of :
    (w : Writer) (was_seen : Bool) (s : ℕ)
    → w.any_block_seen ≡ true
    → w.highest_seen < 2 ^ 32 - 1
    → w.highest_seen + 1 < s
    → is_forward_jump w was_seen s ≡ true
unfolding is_forward_jump
is_forward_jump_of w was_seen s latched room h = ground arith

latch-kept :
    (w : Writer) (msg : Message)
    → ((latch w msg).seen_bitmap ≡ w.seen_bitmap)
      × ((latch w msg).pending_acks ≡ w.pending_acks)
      × ((latch w msg).nack_state ≡ w.nack_state)
      × ((latch w msg).highest_seen ≡ w.highest_seen)
      × ((latch w msg).any_block_seen ≡ true)
unfolding latch
latch-kept w msg = ground arith

module _ (d : Dialect) (w : Writer) (f : LogFile) (host : Host) (port2 n : ℕ) (msg : Message)
    (v : Inv w) (here : w.fp ≡ some f) (a : IsAccepted d w host msg) where
  -- With the file open, a block of 200 bytes that both caps let through and that the system writes
  -- whole is in the file afterwards at offset seqno * 200, no byte of another block has changed, the
  -- block counts as received beside those received before, and one acknowledgement of it was
  -- queued behind the others.
  pub handle_block_stores : Stored d w f msg (handle_block d w host port2 n msg)
  handle_block_stores =
      let b = booked d w f host port2 n msg here a in
      let kept = latch-kept w msg in
      record {
        file = written d w f host port2 n msg here a;
        file_eq = b.fp_eq;
        block_eq = λ t.
            rw (a.writes, take_all 200 (d.decode_block msg).bytes a.whole)
              (write_at-read_block f (d.decode_block msg).seqno t _ a.whole);
        acked_last = rw (b.acks_eq, kept.1) refl;
        seen_more = λ t.
            rw (b.bitmap_eq, kept.0)
              (seqno_seen-mark w.seen_bitmap (d.decode_block msg).seqno t v.bytes);
      }

  -- Under the same conditions, and with a highest block received below 2^32 - 1: each block
  -- strictly between it and this one is chased by NACKs afterwards.
  pub handle_block_chases_gap :
      (t : ℕ)
      → w.highest_seen < 2 ^ 32 - 1
      → w.highest_seen < t
      → t < (d.decode_block msg).seqno
      → has_nack t (handle_block d w host port2 n msg).nack_state ≡ true
  handle_block_chases_gap t room lo hi =
      let b = booked d w f host port2 n msg here a in
      let kept = latch-kept w msg in
      let base = ready d w f host port2 n msg here a in
      let s = (d.decode_block msg).seqno in
      rw
        (
          b.nacks_eq,
          is_forward_jump_of base (seqno_seen base.seen_bitmap s) s kept.4 (omega (arith, kept.3))
              (omega (arith, kept.3)),
        )
        (has_nack-seed_nacks (mark_seqno_seen base.seen_bitmap s) host.now _ _ t _
          (omega (arith, kept.3)) (omega (arith, kept.3)) (rw kept.0 missing))
    where
      missing : seqno_seen (mark_seqno_seen w.seen_bitmap (d.decode_block msg).seqno) t ≡ false
      missing =
          ground
            (arith, seqno_seen-mark w.seen_bitmap (d.decode_block msg).seqno t v.bytes, v.below t)
