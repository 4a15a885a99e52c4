-- ===== src/Binlog/Invariant.antt =====
-- What holds of a BinlogWriter between two calls.
use udpproxy.Prelude.{ℕ, ◌+◌, ◌*◌, ◌≤◌, ◌<◌, ◌≡◌, refl, true, false, none, [], arith, All}
use udpproxy.Binlog.Bitmap.{seqno_seen, seqno_seen-nil, IsBytes}
use udpproxy.Binlog.Writer.{Writer, Nack, new_writer}

-- A block that is chased by NACKs was not received, and lies below the highest one.
abbrev pub IsChased : Writer → Nack → Type 0
IsChased w k = (seqno_seen w.seen_bitmap k.seqno ≡ false) × (k.seqno < w.highest_seen)

abbrev pub IsSeen : Writer → ℕ → Type 0
IsSeen w s = seqno_seen w.seen_bitmap s ≡ true

pub record Inv (w : Writer) : Type 0 where
  pub bytes : IsBytes w.seen_bitmap
  -- A block that was received lies at or below the highest, and inside the file.
  pub below : (s : ℕ) → IsSeen w s → (s ≤ w.highest_seen) × (s * 200 + 200 ≤ w.current_file_size)
  -- Only blocks that were received are acknowledged.
  pub acked : All (IsSeen w) w.pending_acks
  pub chased : All (IsChased w) w.nack_state
  -- Between two logs nothing of the old one is left.
  pub fresh :
      w.fp ≡ none
      → (w.seen_bitmap ≡ []) × (w.pending_acks ≡ []) × (w.nack_state ≡ []) × (w.highest_seen ≡ 0)

pub new_writer-Inv : Inv new_writer
unfolding new_writer
new_writer-Inv = record {
  bytes = tt;
  below = λ s h. ground (arith, seqno_seen-nil s);
  acked = tt;
  chased = tt;
  fresh = λ h. (refl, refl, refl, refl);
}
