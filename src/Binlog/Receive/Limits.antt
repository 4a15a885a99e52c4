-- ===== src/Binlog/Receive/Limits.antt =====
-- The caps of handle_block: how large the file can become, and what happens at the quota.
use udpproxy.Prelude.{
  ℕ, ◌+◌, ◌*◌, ◌≤◌, ◌<◌, max, ◌≡◌, refl, ◌∙◌, inl, inr, true, false, Option, none, some, List, [],
  ◌∷◌, arith, ◌==◌, Bool-cases, Option-cases, is_some, length, take, length-take,
}
use udpproxy.Message.{Message, Block, Dialect}
use udpproxy.Binlog.Writer.{Writer, Host, LogFile, write_at}
use udpproxy.Binlog.Receive.{
  book_block, latch, prospective_size, store_block, start_gate, over_jump, over_quota, take_block,
  gated_block, handle_block, block_bytes, max_per_port2_bytes,
}
use udpproxy.Binlog.Receive.Effects.{book_block-Booked, start_gate_cases, start_gate-open}
use udpproxy.Binlog.Receive.Stored.{gated_block-open}

-- The size of the open file.
abbrev pub file_size : Option LogFile → ℕ
file_size none = 0
file_size (some f) = f.size

-- The file and the size that the writer tracks stay within the quota.
abbrev pub FitsQuota : Writer → Type 0
FitsQuota w = (file_size w.fp ≤ max_per_port2_bytes) × (w.current_file_size ≤ max_per_port2_bytes)

book_block-FitsQuota :
    (w : Writer) (host : Host) (s : ℕ) → FitsQuota w → FitsQuota (book_block w host s)
book_block-FitsQuota w host s q = let b = book_block-Booked w host s in rw (b.fp_eq, b.size_eq) q

write_at-size :
    (f : LogFile) (s n m : ℕ) (bytes : List ℕ)
    → length bytes ≤ 200
    → f.size ≤ m
    → s * block_bytes + block_bytes ≤ m
    → (write_at f (s * block_bytes) (take n bytes)).size ≤ m
unfolding write_at
write_at-size f s n m bytes len old new = omega (arith, length-take n bytes)

module _ (w : Writer) (f : LogFile) (host : Host) (blk : Block) (len : length blk.bytes ≤ 200) where
  store_block-FitsQuota :
      w.fp ≡ some f
      → over_quota w blk.seqno ≡ false
      → FitsQuota w
      → FitsQuota (store_block w f host blk (prospective_size w blk.seqno))
  unfolding store_block
  store_block-FitsQuota here ok q = elim (Bool-cases host.seek_ok) [
    | inr e ↦ rw e q
    | inl e ↦ elim (Bool-cases (host.wrote == block_bytes)) [
      | inr e' ↦ simp (e, e') (grown.0, q.1)
      | inl e' ↦ simp (e, e') (book_block-FitsQuota _ host blk.seqno grown)
    ]
  ]
    where
      bound : prospective_size w blk.seqno ≤ max_per_port2_bytes
      bound = unfold over_quota in ground arith

      grown :
          ((write_at f (blk.seqno * block_bytes) (take host.wrote blk.bytes)).size
            ≤ max_per_port2_bytes)
          × (prospective_size w blk.seqno ≤ max_per_port2_bytes)
      grown = (
        write_at-size f blk.seqno host.wrote max_per_port2_bytes blk.bytes len (ground arith)
            (unfold prospective_size in omega (arith, bound)),
        bound,
      )

module _ (w : Writer) (f : LogFile) (host : Host) (blk : Block) (len : length blk.bytes ≤ 200) where
  latch-same :
      (msg : Message)
      → ((latch w msg).fp ≡ w.fp)
        × ((latch w msg).current_file_size ≡ w.current_file_size)
        × (over_quota (latch w msg) blk.seqno ≡ over_quota w blk.seqno)
        × (prospective_size (latch w msg) blk.seqno ≡ prospective_size w blk.seqno)
  unfolding latch over_quota prospective_size
  latch-same msg = ground arith

  take_block-FitsQuota :
      (msg : Message) → w.fp ≡ some f → FitsQuota w → FitsQuota (take_block w f host msg blk)
  unfolding take_block
  take_block-FitsQuota msg here q = elim (Bool-cases (over_jump w blk.seqno)) [
    | inl e ↦ rw e q
    | inr e ↦ elim (Bool-cases (over_quota w blk.seqno)) [
      | inl e' ↦ rw (e, e') q
      | inr e' ↦ rw (e, e') (latched e')
    ]
  ]
    where
      latched :
          over_quota w blk.seqno ≡ false
          → FitsQuota (store_block (latch w msg) f host blk (prospective_size w blk.seqno))
      latched e' =
          let same = latch-same msg in
          rw (← same.3) (
            store_block-FitsQuota (latch w msg) f host blk len (same.0 ∙ here) (same.2 ∙ e')
              (rw (same.0, same.1) q))

gated_block-FitsQuota :
    (w : Writer) (host : Host) (msg : Message) (blk : Block)
    → length blk.bytes ≤ 200
    → FitsQuota w
    → FitsQuota (gated_block w host msg blk)
unfolding gated_block
gated_block-FitsQuota w host msg blk len q = elim (Option-cases w.fp) [
  | inl e ↦ rw (e, gated_block) (ground arith)
  | inr (f, e) ↦
      rw (gated_block-open w f host msg blk e) (take_block-FitsQuota w f host blk len msg e q)
]

file_size-of :
    (fp : Option LogFile)
    → is_some fp ≡ true
    → ((f : LogFile) → fp ≡ some f → f.size ≡ 0)
    → file_size fp ≡ 0
file_size-of none h z = cc
file_size-of (some f) h z = z f refl

start_gate-FitsQuota :
    (w w' : Writer) (host : Host) (port2 n s : ℕ)
    → start_gate w host port2 n s ≡ some w'
    → FitsQuota w
    → FitsQuota w'
start_gate-FitsQuota w w' host port2 n s e q = elim (start_gate_cases w host port2 n s w' e) [
  | inl (f, o, same) ↦ rw same q
  | inr (z, g) ↦ omega (arith, file_size-of w'.fp g.open_now g.empty_file, g.size_reset)
]

-- No block makes the file or the tracked size pass the quota of 1 GiB.
pub handle_block-FitsQuota :
    (d : Dialect) (w : Writer) (host : Host) (port2 n : ℕ) (msg : Message)
    → length (d.decode_block msg).bytes ≤ 200
    → FitsQuota w
    → FitsQuota (handle_block d w host port2 n msg)
unfolding handle_block
handle_block-FitsQuota d w host port2 n msg len q =
    elim (Option-cases (start_gate w host port2 n (d.decode_block msg).seqno)) [
      | inl e ↦ rw (e, handle_block) q
      | inr (w', e) ↦
          rw (e, handle_block)
            (gated_block-FitsQuota w' host msg (d.decode_block msg) len
              (start_gate-FitsQuota w w' host port2 n _ e q))
    ]

-- A batch of blocks, each with what the system answers meanwhile.
unfoldable pub handle_blocks : Dialect → Writer → ℕ → ℕ → List (Host × Message) → Writer
handle_blocks d w port2 n [] = w
handle_blocks d w port2 n ((host, msg) ∷ rest) =
    handle_blocks d (handle_block d w host port2 n msg) port2 n rest

over_quota_refused :
    (d : Dialect) (w : Writer) (f : LogFile) (host : Host) (port2 n : ℕ) (msg : Message)
    → w.fp ≡ some f
    → max_per_port2_bytes < w.other_sessions_bytes + max w.current_file_size block_bytes
    → handle_block d w host port2 n msg ≡ w
unfolding handle_block take_block over_quota prospective_size
over_quota_refused d w f host port2 n msg here full =
    rw (start_gate-open w host port2 n f (d.decode_block msg).seqno here, handle_block)
      (gated_block-open w f host msg (d.decode_block msg) here ∙ ground (arith, blocked))
  where
    blocked : over_quota w (d.decode_block msg).seqno ≡ true
    blocked = ground arith

-- Once the bytes of the other sessions, as last counted, and the larger of this file's size and one
-- block together pass the quota, no sequence of blocks changes the writer any more, whatever the
-- directory holds by then: the count of the other sessions is renewed by successful writes only.
pub handle_blocks_stuck :
    (d : Dialect) (w : Writer) (f : LogFile) (port2 n : ℕ) (blocks : List (Host × Message))
    → w.fp ≡ some f
    → max_per_port2_bytes < w.other_sessions_bytes + max w.current_file_size block_bytes
    → handle_blocks d w port2 n blocks ≡ w
unfolding handle_blocks
handle_blocks_stuck d w f port2 n [] here full = refl
handle_blocks_stuck d w f port2 n ((host, msg) ∷ rest) here full =
    rw (over_quota_refused d w f host port2 n msg here full)
      (handle_blocks_stuck d w f port2 n rest here full)
