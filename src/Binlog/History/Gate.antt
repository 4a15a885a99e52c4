-- ===== src/Binlog/History/Gate.antt =====
-- The strict-start gate over time.
use udpproxy.Prelude.{
  ℕ, ◌*◌, ◌≡◌, refl, ap, ◌∙◌, ◌≢◌, inl, inr, true, Option, none, some, List, [], ◌∷◌, arith, ◌==◌,
  if◌then◌else◌, Option-cases, take, All,
}
use udpproxy.Message.{Message, Block, Dialect}
use udpproxy.Session.Number.{next_session_n}
use udpproxy.Binlog.Writer.{
  Writer, Host, LogFile, write_at, open_log, close_log, refresh_other_sessions_bytes,
}
use udpproxy.Binlog.Receive.{
  handle_block, start_gate, gated_block, take_block, store_block, latch, prospective_size,
}
use udpproxy.Binlog.Receive.Effects.{book_block-Booked}
use udpproxy.Binlog.Receive.Stored.{gated_block-open}
use udpproxy.Binlog.Receive.Limits.{handle_blocks}
use udpproxy.Binlog.Reboot.{rotate_for_reboot}

gated :
    (d : Dialect) (w : Writer) (host : Host) (port2 n : ℕ) (msg : Message)
    → w.fp ≡ none
    → (d.decode_block msg).seqno ≢ 0
    → handle_block d w host port2 n msg ≡ w
unfolding handle_block start_gate
gated d w host port2 n msg closed late = ground arith

-- With no file open, blocks with sequence numbers other than 0 change nothing, however many arrive:
-- no file is opened for them, and none is written, acknowledged or marked.
pub handle_blocks_gated :
    (d : Dialect) (w : Writer) (port2 n : ℕ) (blocks : List (Host × Message))
    → w.fp ≡ none
    → All (λ b. (d.decode_block b.1).seqno ≢ 0) blocks
    → handle_blocks d w port2 n blocks ≡ w
unfolding handle_blocks
handle_blocks_gated d w port2 n [] closed h = refl
handle_blocks_gated d w port2 n ((host, msg) ∷ rest) closed h =
    rw (gated d w host port2 n msg closed h.0) (handle_blocks_gated d w port2 n rest closed h.1)

-- The session number of the open file.
abbrev pub file_session : Option LogFile → Option ℕ
file_session none = none
file_session (some f) = some f.session

store_block-session :
    (w : Writer) (f : LogFile) (host : Host) (blk : Block) (size : ℕ)
    → w.fp ≡ some f
    → file_session (store_block w f host blk size).fp ≡ some f.session
unfolding store_block write_at
store_block-session w f host blk size here = ground (
  arith,
  (book_block-Booked
      (record w {
        fp = some (write_at f (blk.seqno * 200) (take host.wrote blk.bytes));
        current_file_size = size;
      })
      host blk.seqno).fp_eq,
)

take_block-session :
    (w : Writer) (f : LogFile) (host : Host) (msg : Message) (blk : Block)
    → w.fp ≡ some f
    → file_session (take_block w f host msg blk).fp ≡ some f.session
unfolding take_block latch
take_block-session w f host msg blk here =
    ground (arith, store_block-session (latch w msg) f host blk (prospective_size w blk.seqno))

gated_block-session :
    (w : Writer) (f : LogFile) (host : Host) (msg : Message) (blk : Block)
    → w.fp ≡ some f
    → file_session (gated_block w host msg blk).fp ≡ some f.session
gated_block-session w f host msg blk here =
    rw (gated_block-open w f host msg blk here) (take_block-session w f host msg blk here)

module _ (w : Writer) (host : Host) (port2 n inode s : ℕ) (zero_block : s ≡ 0)
    (closed : w.fp ≡ none) (dir : host.mkdir_ok ≡ true) (file : host.fopen_inode ≡ some inode) where
  start_gate-ne-none : start_gate w host port2 n s ≢ none
  unfolding start_gate open_log
  start_gate-ne-none = ground arith

  start_gate-session :
      (w' : Writer)
      → start_gate w host port2 n s ≡ some w'
      → file_session w'.fp ≡ some (if w.pending_session_n == 0 then n else w.pending_session_n)
  unfolding start_gate open_log refresh_other_sessions_bytes
  start_gate-session w' e = ground arith

file_of_session :
    (fp : Option LogFile) (n : ℕ)
    → file_session fp ≡ some n
    → (f : LogFile) × (fp ≡ some f) × (f.session ≡ n)
file_of_session none n h = cc
file_of_session (some f) n h = (f, refl, cc)

-- After a rotation, the first block with seqno 0 for which the directory and the file can be made
-- opens the session whose number was chosen at the rotation, unless that number wrapped to 0, in
-- which case it opens the session number of the call.
pub rotation_reopens :
    (d : Dialect) (w : Writer) (names : Option (List (List ℕ))) (host : Host) (port2 n inode : ℕ)
    (msg : Message)
    → (d.decode_block msg).seqno ≡ 0
    → host.mkdir_ok ≡ true
    → host.fopen_inode ≡ some inode
    → file_session (handle_block d (rotate_for_reboot w names) host port2 n msg).fp
      ≡ some (if next_session_n names == 0 then n else next_session_n names)
unfolding handle_block rotate_for_reboot close_log
rotation_reopens d w names host port2 n inode msg zero_block dir file =
    elim (Option-cases (start_gate rotated host port2 n (d.decode_block msg).seqno)) [
      | inl e ↦ absurd (start_gate-ne-none rotated host port2 n inode _ zero_block refl dir file e)
      | inr (w', e) ↦
          let opened =
            start_gate-session rotated host port2 n inode _ zero_block refl dir file w' e in
          let f = file_of_session w'.fp _ opened in
          rw (e, handle_block)
            (gated_block-session w' f.0 host msg (d.decode_block msg) f.1 ∙ ap some f.2)
    ]
  where
    rotated : Writer
    rotated = rotate_for_reboot w names
