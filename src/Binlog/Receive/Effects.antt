-- ===== src/Binlog/Receive/Effects.antt =====
-- What each part of handle_block does to the fields of the writer.
use udpproxy.Prelude.{
  ℕ, zero, suc, ◌+◌, ◌-◌, ◌≤◌, ◌<◌, ◌≡◌, refl, subst, ◌≢◌, ◌⊎◌, inl, inr, true, false, none, some,
  List, [], ◌∷◌, ◌++◌, arith, leb, ◌==◌, if◌then◌else◌, ==_iff, Bool-cases, Option-cases, is_some,
  All,
}
use udpproxy.Binlog.Bitmap.{seqno_seen, mark_seqno_seen}
use udpproxy.Binlog.Writer.{Writer, Nack, Host, LogFile, open_log, refresh_other_sessions_bytes}
use udpproxy.Binlog.Receive.{
  u32, has_nack, seed_nack, erase_nack, seed_nacks, queue_gap_nacks, count_write, note_seen,
  is_forward_jump, note_gap, raise_highest, queue_ack, book_block, start_gate,
}

-- The gap that a block opens, in the writer before it.
abbrev pub gap_nacks : Writer → Host → ℕ → List Nack
gap_nacks w host s =
    let bitmap = mark_seqno_seen w.seen_bitmap s in
    let kept = erase_nack s w.nack_state in
    if is_forward_jump w (seqno_seen w.seen_bitmap s) s
    then seed_nacks bitmap host.now (s - u32 (w.highest_seen + 1)) (u32 (w.highest_seen + 1)) kept
    else kept

-- The writer after a block was booked, field by field.
pub record Booked (w : Writer) (host : Host) (s : ℕ) (w' : Writer) : Type 0 where
  pub bitmap_eq : w'.seen_bitmap ≡ mark_seqno_seen w.seen_bitmap s
  pub nacks_eq : w'.nack_state ≡ gap_nacks w host s
  pub highest_eq : w'.highest_seen ≡ (if leb w.highest_seen s then s else w.highest_seen)
  pub acks_eq : w'.pending_acks ≡ w.pending_acks ++ s ∷ []
  pub size_eq : w'.current_file_size ≡ w.current_file_size
  pub fp_eq : w'.fp ≡ w.fp
  pub latched_eq : w'.any_block_seen ≡ w.any_block_seen
  pub pending_eq : w'.pending_session_n ≡ w.pending_session_n

pub book_block-Booked : (w : Writer) (host : Host) (s : ℕ) → Booked w host s (book_block w host s)
unfolding book_block queue_ack raise_highest note_gap queue_gap_nacks note_seen count_write
    refresh_other_sessions_bytes is_forward_jump
book_block-Booked w host s = record {
  bitmap_eq = ground arith;
  nacks_eq = ground arith;
  highest_eq = ground arith;
  acks_eq = ground arith;
  size_eq = ground arith;
  fp_eq = ground arith;
  latched_eq = ground arith;
  pending_eq = ground arith;
}

module _ {κ} (P Q : Nack → Type κ) where
  pub erase_nack-All :
      (s : ℕ) (ks : List Nack)
      → ((k : Nack) → k.seqno ≢ s → P k → Q k)
      → All P ks
      → All Q (erase_nack s ks)
  unfolding erase_nack
  erase_nack-All s [] f h = tt
  erase_nack-All s (k ∷ ks) f h = elim (Bool-cases (k.seqno == s)) [
    | inl e ↦ rw e (erase_nack-All s ks f h.1)
    | inr e ↦ rw e (f k (ground arith) h.0, erase_nack-All s ks f h.1)
  ]

module _ {κ} (P : Nack → Type κ) (bitmap : List ℕ) (now : ℕ) where
  pub seed_nack-All :
      (s : ℕ) (ks : List Nack)
      → ((k : Nack) → k.seqno ≡ s → seqno_seen bitmap k.seqno ≡ false → P k)
      → All P ks
      → All P (seed_nack bitmap now s ks)
  unfolding seed_nack
  seed_nack-All s ks f h = elim (Bool-cases (seqno_seen bitmap s)) [
    | inl e ↦ rw e h
    | inr e ↦ elim (Bool-cases (has_nack s ks)) [
      | inl e' ↦ rw (e, e') h
      | inr e' ↦ rw (e, e') (f _ refl e, h)
    ]
  ]

  -- Every entry that the loop adds is a block of its range that was not received.
  pub seed_nacks-All :
      (rounds s : ℕ) (ks : List Nack)
      → ((k : Nack) → k.seqno < s + rounds → seqno_seen bitmap k.seqno ≡ false → P k)
      → All P ks
      → All P (seed_nacks bitmap now rounds s ks)
  unfolding seed_nacks
  seed_nacks-All zero s ks f h = h
  seed_nacks-All (suc rounds) s ks f h =
      seed_nacks-All rounds (s + 1) (seed_nack bitmap now s ks) (λ k lt e. f k (omega arith) e)
        (seed_nack-All s ks (λ k eq e. f k (omega arith) e) h)

has_nack-seed_kept :
    (bitmap : List ℕ) (now s t : ℕ) (ks : List Nack)
    → has_nack t ks ≡ true
    → has_nack t (seed_nack bitmap now s ks) ≡ true
unfolding seed_nack has_nack
has_nack-seed_kept bitmap now s t ks h = ground arith

has_nack-seed_self :
    (bitmap : List ℕ) (now s : ℕ) (ks : List Nack)
    → seqno_seen bitmap s ≡ false
    → has_nack s (seed_nack bitmap now s ks) ≡ true
unfolding seed_nack has_nack
has_nack-seed_self bitmap now s ks h = ground arith

has_nack-seed_nacks_kept :
    (bitmap : List ℕ) (now rounds s t : ℕ) (ks : List Nack)
    → has_nack t ks ≡ true
    → has_nack t (seed_nacks bitmap now rounds s ks) ≡ true
unfolding seed_nacks
has_nack-seed_nacks_kept bitmap now zero s t ks h = h
has_nack-seed_nacks_kept bitmap now (suc rounds) s t ks h =
    has_nack-seed_nacks_kept bitmap now rounds (s + 1) t _ (has_nack-seed_kept bitmap now s t ks h)

-- Every block of the range that was not received has an entry afterwards.
pub has_nack-seed_nacks :
    (bitmap : List ℕ) (now rounds s t : ℕ) (ks : List Nack)
    → s ≤ t
    → t < s + rounds
    → seqno_seen bitmap t ≡ false
    → has_nack t (seed_nacks bitmap now rounds s ks) ≡ true
unfolding seed_nacks
has_nack-seed_nacks bitmap now zero s t ks lo hi h = absurd (omega arith)
has_nack-seed_nacks bitmap now (suc rounds) s t ks lo hi h = elim (Bool-cases (s == t)) [
  | inl e ↦ has_nack-seed_nacks_kept bitmap now rounds (s + 1) t _ (
      subst (λ u. has_nack u (seed_nack bitmap now s ks) ≡ true) ((==_iff s t).0 e)
        (has_nack-seed_self bitmap now s ks (ground arith)))
  | inr e ↦ has_nack-seed_nacks bitmap now rounds (s + 1) t _ (ground arith) (omega arith) h
]

-- What the strict-start gate lets through: a writer with its file open, as it was, or one whose file
-- was opened just now, at a block with seqno 0.
pub record Fresh (w w' : Writer) : Type 0 where
  pub closed_eq : w.fp ≡ none
  pub open_now : is_some w'.fp ≡ true
  pub empty_file : (f : LogFile) → w'.fp ≡ some f → f.size ≡ 0
  pub bitmap_kept : w'.seen_bitmap ≡ w.seen_bitmap
  pub highest_kept : w'.highest_seen ≡ w.highest_seen
  pub acks_kept : w'.pending_acks ≡ w.pending_acks
  pub nacks_kept : w'.nack_state ≡ w.nack_state
  pub size_reset : w'.current_file_size ≡ 0
  pub pending_reset : w'.pending_session_n ≡ 0

module _ (w : Writer) (host : Host) (port2 n : ℕ) where
  start_gate-closed :
      (s : ℕ) (w' : Writer)
      → w.fp ≡ none
      → start_gate w host port2 n s ≡ some w'
      → (s ≡ 0) × Fresh w w'
  unfolding start_gate open_log refresh_other_sessions_bytes
  start_gate-closed s w' c e = (
    ground arith,
    record {
      closed_eq = c;
      open_now = ground arith;
      empty_file = λ f h. ground arith;
      bitmap_kept = ground arith;
      highest_kept = ground arith;
      acks_kept = ground arith;
      nacks_kept = ground arith;
      size_reset = ground arith;
      pending_reset = ground arith;
    },
  )

  pub start_gate-open : (f : LogFile) (s : ℕ) → w.fp ≡ some f → start_gate w host port2 n s ≡ some w
  unfolding start_gate
  start_gate-open f s h = ground arith

  pub start_gate_cases :
      (s : ℕ) (w' : Writer)
      → start_gate w host port2 n s ≡ some w'
      → ((f : LogFile) × (w.fp ≡ some f) × (w' ≡ w)) ⊎ ((s ≡ 0) × Fresh w w')
  start_gate_cases s w' e = elim (Option-cases w.fp) [
    | inl c ↦ inr (start_gate-closed s w' c e)
    | inr (f, o) ↦ inl (f, o, cc (start_gate-open f s o))
  ]
