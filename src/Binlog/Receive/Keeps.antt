-- ===== src/Binlog/Receive/Keeps.antt =====
-- handle_block keeps the invariant.
use udpproxy.Prelude.{
  ℕ, ◌+◌, ◌-◌, ◌*◌, ◌≤◌, ◌<◌, ◌≡◌, refl, ◌∙◌, ◌≢◌, inl, inr, true, false, none, some, List, [], ◌∷◌,
  arith, leb, ◌==◌, if◌then◌else◌, Bool-cases, Option-cases, All, All-append, All-imp,
}
use udpproxy.Message.{Message, Block, Dialect}
use udpproxy.Binlog.Bitmap.{
  seqno_seen, seqno_seen-nil, mark_seqno_seen, seqno_seen-mark, mark-IsBytes,
}
use udpproxy.Binlog.Writer.{Writer, Nack, Host, LogFile}
use udpproxy.Binlog.Invariant.{Inv, IsSeen, IsChased}
use udpproxy.Binlog.Receive.{
  u32, erase_nack, is_forward_jump, latch, prospective_size, store_block, start_gate, over_jump,
  over_quota, take_block, gated_block, handle_block, block_bytes,
}
use udpproxy.Binlog.Receive.Effects.{
  Booked, book_block-Booked, gap_nacks, erase_nack-All, seed_nacks-All, Fresh, start_gate_cases,
}

-- A block not received and below `top`, in the bitmap after `s` was marked.
abbrev IsMissing : List ℕ → ℕ → Nack → Type 0
IsMissing bitmap top k = (seqno_seen bitmap k.seqno ≡ false) × (k.seqno < top)

module _ (w : Writer) (host : Host) (s : ℕ) (v : Inv w) where
  abbrev marked : List ℕ
  marked = mark_seqno_seen w.seen_bitmap s

  abbrev top : ℕ
  top = if leb w.highest_seen s then s else w.highest_seen

  erased-IsMissing : All (IsMissing marked top) (erase_nack s w.nack_state)
  erased-IsMissing =
      erase_nack-All (IsChased w) (IsMissing marked top) s w.nack_state
        (λ k ne h. (ground (arith, seqno_seen-mark w.seen_bitmap s k.seqno v.bytes), ground arith))
        v.chased

  gap-IsMissing : All (IsMissing marked top) (gap_nacks w host s)
  gap-IsMissing = elim (Bool-cases (is_forward_jump w (seqno_seen w.seen_bitmap s) s)) [
    | inl e ↦ rw e (
        seed_nacks-All (IsMissing marked top) marked host.now _ _ _
          (λ k lt h. (h, jump_below e k lt)) erased-IsMissing)
    | inr e ↦ rw e erased-IsMissing
  ]
    where
      jump_below :
          is_forward_jump w (seqno_seen w.seen_bitmap s) s ≡ true
          → (k : Nack) → k.seqno < u32 (w.highest_seen + 1) + (s - u32 (w.highest_seen + 1))
          → k.seqno < top
      jump_below e k lt = unfold is_forward_jump in ground arith

  module _ (w' : Writer) (b : Booked w host s w') where
    still-IsSeen : (t : ℕ) → IsSeen w t → IsSeen w' t
    still-IsSeen t h = rw b.bitmap_eq (ground (arith, seqno_seen-mark w.seen_bitmap s t v.bytes))

    now-IsSeen : IsSeen w' s
    now-IsSeen = rw b.bitmap_eq (ground (arith, seqno_seen-mark w.seen_bitmap s s v.bytes))

    book_block-Inv : w.fp ≢ none → s * 200 + 200 ≤ w.current_file_size → Inv w'
    book_block-Inv opened size = record {
      bytes = rw b.bitmap_eq (mark-IsBytes w.seen_bitmap s v.bytes);
      below = λ t h.
          let new = rw b.bitmap_eq at h in
          ground (arith, new, seqno_seen-mark w.seen_bitmap s t v.bytes, v.below t);
      acked = rw b.acks_eq (
          All-append (IsSeen w') w.pending_acks (s ∷ [])
            (All-imp (IsSeen w) (IsSeen w') w.pending_acks still-IsSeen v.acked) (now-IsSeen, tt));
      chased = rw b.nacks_eq (
          All-imp (IsMissing marked top) (IsChased w') _
            (λ k h. (rw b.bitmap_eq h.0, rw b.highest_eq h.1)) gap-IsMissing);
      fresh = λ e. absurd (opened (ground arith));
    }

-- A longer file, another file in place, or a latched target changes nothing that the invariant says.
abbrev SameLog : Writer → Writer → Type 0
SameLog w w' =
    (w'.seen_bitmap ≡ w.seen_bitmap)
    × (w'.highest_seen ≡ w.highest_seen)
    × (w'.pending_acks ≡ w.pending_acks)
    × (w'.nack_state ≡ w.nack_state)
    × (w.current_file_size ≤ w'.current_file_size)
    × (w'.fp ≡ none → w.fp ≡ none)

pub SameLog-Inv : (w w' : Writer) → SameLog w w' → Inv w → Inv w'
SameLog-Inv w w' e v = record {
  bytes = rw e.0 v.bytes;
  below = λ s h. let old = rw e.0 at h in ground (arith, v.below s old);
  acked = rw e.2 (All-imp (IsSeen w) (IsSeen w') w.pending_acks (λ s h. rw e.0 h) v.acked);
  chased =
      rw e.3 (
        All-imp (IsChased w) (IsChased w') w.nack_state (λ k h. (rw e.0 h.0, rw e.1 h.1)) v.chased);
  fresh = λ h. let old = v.fresh (e.5 h) in ground arith;
}

module _ (w : Writer) (f : LogFile) (host : Host) (blk : Block) (v : Inv w)
    (here : w.fp ≡ some f) where
  store_block-Inv : Inv (store_block w f host blk (prospective_size w blk.seqno))
  unfolding store_block prospective_size
  store_block-Inv = elim (Bool-cases host.seek_ok) [
    | inr e ↦ rw e v
    | inl e ↦ elim (Bool-cases (host.wrote == block_bytes)) [
      | inr e' ↦ rw (e, e') (SameLog-Inv w _ (refl, refl, refl, refl, omega arith, λ h. cc) v)
      | inl e' ↦
          simp (e, e')
            (book_block-Inv _ host blk.seqno
              (SameLog-Inv w _ (refl, refl, refl, refl, omega arith, λ h. cc) v) _
              (book_block-Booked _ host blk.seqno) (λ h. cc) (omega arith))
    ]
  ]

latch-SameLog : (w : Writer) (msg : Message) → SameLog w (latch w msg)
unfolding latch
latch-SameLog w msg = ground arith

latch-fp : (w : Writer) (msg : Message) → (latch w msg).fp ≡ w.fp
unfolding latch
latch-fp w msg = ground arith

latch-prospective_size :
    (w : Writer) (msg : Message) (s : ℕ) → prospective_size (latch w msg) s ≡ prospective_size w s
unfolding latch prospective_size
latch-prospective_size w msg s = ground arith

module _ (w : Writer) (f : LogFile) (host : Host) (msg : Message) (blk : Block) (v : Inv w) where
  take_block-Inv : w.fp ≡ some f → Inv (take_block w f host msg blk)
  unfolding take_block
  take_block-Inv here = elim (Bool-cases (over_jump w blk.seqno)) [
    | inl e ↦ rw e v
    | inr e ↦ elim (Bool-cases (over_quota w blk.seqno)) [
      | inl e' ↦ rw (e, e') v
      | inr e' ↦
          rw (e, e', ← latch-prospective_size w msg blk.seqno)
            (store_block-Inv (latch w msg) f host blk (SameLog-Inv w _ (latch-SameLog w msg) v)
              (latch-fp w msg ∙ here))
    ]
  ]

gated_block-Inv :
    (w : Writer) (host : Host) (msg : Message) (blk : Block)
    → Inv w
    → Inv (gated_block w host msg blk)
unfolding gated_block
gated_block-Inv w host msg blk v = elim (Option-cases w.fp) [
  | inl e ↦ rw (e, gated_block) v
  | inr (f, e) ↦ rw (e, gated_block) (take_block-Inv w f host msg blk v e)
]

Fresh-Inv : (w w' : Writer) → Inv w → Fresh w w' → Inv w'
Fresh-Inv w w' v g =
    let old = v.fresh g.closed_eq in
    record {
      bytes = rw (g.bitmap_kept, old.0) tt;
      below = λ s h.
          let none_seen = rw (g.bitmap_kept, old.0) at h in
          ground (arith, none_seen, seqno_seen-nil s);
      acked = rw (g.acks_kept, old.1) tt;
      chased = rw (g.nacks_kept, old.2) tt;
      fresh = λ h. let now = g.open_now in ground arith;
    }

start_gate-Inv :
    (w w' : Writer) (host : Host) (port2 n s : ℕ)
    → Inv w
    → start_gate w host port2 n s ≡ some w'
    → Inv w'
start_gate-Inv w w' host port2 n s v e = elim (start_gate_cases w host port2 n s w' e) [
  | inl (f, o, same) ↦ rw same v
  | inr (z, g) ↦ Fresh-Inv w w' v g
]

-- handle_block keeps the invariant: only received blocks are acknowledged, only missing blocks below
-- the highest are chased, every received block lies inside the file, and a writer with no file open
-- holds nothing of an earlier log.
pub handle_block-Inv :
    (d : Dialect) (w : Writer) (host : Host) (port2 session_n : ℕ) (msg : Message)
    → Inv w
    → Inv (handle_block d w host port2 session_n msg)
unfolding handle_block
handle_block-Inv d w host port2 session_n msg v =
    elim (Option-cases (start_gate w host port2 session_n (d.decode_block msg).seqno)) [
      | inl e ↦ rw (e, handle_block) v
      | inr (w', e) ↦
          rw (e, handle_block)
            (gated_block-Inv w' host msg (d.decode_block msg)
              (start_gate-Inv w w' host port2 session_n _ v e))
    ]
