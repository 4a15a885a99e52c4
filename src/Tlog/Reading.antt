-- ===== src/Tlog/Reading.antt =====
-- What a reader finds in a telemetry log.
use udpproxy.Prelude.{
  ℕ, zero, suc, ◌%◌, ◌^◌, ◌<◌, ◌≡◌, refl, sym, ap, ◌∙◌, subst, true, none, some, List, [], ◌∷◌,
  ◌++◌, arith, length, take, drop, All, length-append, take-append, drop-append, take_all,
  take_front, drop_front,
}
use udpproxy.Prelude.BigEndian.{of_be, be_bytes, of_be-be_bytes, length-be_bytes}
use mathlib.Core.List.{append_assoc, append-nil}
use udpproxy.Message.{Message}
use udpproxy.Tlog.{
  TlogFile, Clocked, Heard, open_tlog, put_frame, write_frame, ensure_tlog_open, tlog_write_message,
  log_message, log_messages,
}

-- A reader of the records, who learns from the start of a frame how long it is.
pub read_tlog : (List ℕ → ℕ) → ℕ → List ℕ → List (ℕ × List ℕ)
read_tlog frame_size zero bytes = []
read_tlog frame_size (suc n) [] = []
read_tlog frame_size (suc n) (b ∷ bs) =
    let frame = drop 8 (b ∷ bs) in
    (of_be 0 (take 8 (b ∷ bs)), take (frame_size frame) frame)
    ∷ read_tlog frame_size n (drop (frame_size frame) frame)

-- The record of a frame, as it stands in the log.
abbrev pub entry_bytes : ℕ × List ℕ → List ℕ
entry_bytes (now, frame) = be_bytes 8 (now % 2 ^ 64) ++ frame

abbrev pub log_bytes : List (ℕ × List ℕ) → List ℕ
log_bytes [] = []
log_bytes (e ∷ es) = entry_bytes e ++ log_bytes es

-- The time fits 64 bits, and the start of the frame tells its length.
abbrev pub IsEntry : (List ℕ → ℕ) → ℕ × List ℕ → Type 0
IsEntry frame_size (now, frame) =
    (now < 2 ^ 64) × ((rest : List ℕ) → frame_size (frame ++ rest) ≡ length frame)

read_tlog-step :
    (frame_size : List ℕ → ℕ) (n : ℕ) (bytes : List ℕ)
    → 0 < length bytes
    → let frame = drop 8 bytes in
      read_tlog frame_size (suc n) bytes
      ≡ (of_be 0 (take 8 bytes), take (frame_size frame) frame)
        ∷ read_tlog frame_size n (drop (frame_size frame) frame)
unfolding read_tlog
read_tlog-step frame_size n [] h = absurd (omega (arith, h))
read_tlog-step frame_size n (b ∷ bs) h = refl

read_tlog-entry :
    (frame_size : List ℕ → ℕ) (n now : ℕ) (frame rest : List ℕ)
    → IsEntry frame_size (now, frame)
    → read_tlog frame_size (suc n) (entry_bytes (now, frame) ++ rest)
      ≡ (now, frame) ∷ read_tlog frame_size n rest
read_tlog-entry frame_size n now frame rest (small, size) =
    let stamp = be_bytes 8 (now % 2 ^ 64) in
    let eight = length-be_bytes 8 (now % 2 ^ 64) in
    let total = length-append stamp (frame ++ rest) in
    let same : now % 2 ^ 64 ≡ now = omega (arith, small) in
    let value : of_be 0 stamp ≡ now = of_be-be_bytes 8 (now % 2 ^ 64) (omega arith) ∙ same in
    ap (read_tlog frame_size (suc n)) (append_assoc stamp frame rest)
    ∙ (read_tlog-step frame_size n (stamp ++ (frame ++ rest)) (omega (arith, eight, total))
        ∙ rw
            (
              take_front 8 stamp (frame ++ rest) eight,
              drop_front 8 stamp (frame ++ rest) eight,
              size rest,
              take-append frame rest,
              drop-append frame rest,
              value,
            )
            refl)

read_tlog-log_bytes :
    (frame_size : List ℕ → ℕ) (es : List (ℕ × List ℕ))
    → All (IsEntry frame_size) es
    → read_tlog frame_size (length es) (log_bytes es) ≡ es
unfolding read_tlog
read_tlog-log_bytes frame_size [] all = refl
read_tlog-log_bytes frame_size ((now, frame) ∷ es) all =
    read_tlog-entry frame_size (length es) now frame (log_bytes es) all.0
    ∙ ap (λ t. (now, frame) ∷ t) (read_tlog-log_bytes frame_size es all.1)

module _ (to_buffer : Message → List ℕ) where
  abbrev pub entries : List (Heard to_buffer) → List (ℕ × List ℕ)
  entries [] = []
  entries (h ∷ hs) = (h.clock.now, to_buffer h.msg) ∷ entries hs

  -- The message packs to something, and both writes are complete.
  abbrev pub IsWritten : Heard to_buffer → Type 0
  IsWritten h =
      (0 < length (to_buffer h.msg))
      × (h.clock.header_written ≡ 8)
      × (h.clock.frame_written ≡ length (to_buffer h.msg))

  write_frame-some :
      (c : Clocked) (frame : List ℕ) (f : TlogFile)
      → 0 < length frame
      → c.header_written ≡ 8
      → c.frame_written ≡ length frame
      → write_frame c frame (some f)
        ≡ some (record f { content = f.content ++ entry_bytes (c.now, frame) })
  unfolding write_frame put_frame
  write_frame-some c [] f h e8 en = absurd (omega (arith, h))
  write_frame-some c (b ∷ bs) f h e8 en =
      let stamp = be_bytes 8 (c.now % 2 ^ 64) in
      let front : take c.header_written stamp ≡ stamp =
        take_all c.header_written stamp (omega (arith, e8, length-be_bytes 8 (c.now % 2 ^ 64))) in
      let whole : take c.frame_written (b ∷ bs) ≡ b ∷ bs =
        take_all c.frame_written (b ∷ bs) (omega (arith, en)) in
      λ i. some (record f { content = f.content ++ (front i ++ whole i) })

  log_message-some :
      (port2 session_n : ℕ) (h : Heard to_buffer) (f : TlogFile)
      → IsWritten h
      → log_message to_buffer true port2 session_n h (some f)
        ≡ some (record f { content = f.content ++ entry_bytes (h.clock.now, to_buffer h.msg) })
  unfolding log_message tlog_write_message ensure_tlog_open
  log_message-some port2 session_n h f (some_bytes, e8, en) =
      write_frame-some h.clock (to_buffer h.msg) f some_bytes e8 en

  pub log_messages-some :
      (port2 session_n : ℕ) (hs : List (Heard to_buffer)) (f : TlogFile)
      → All IsWritten hs
      → log_messages to_buffer true port2 session_n hs (some f)
        ≡ some (record f { content = f.content ++ log_bytes (entries hs) })
  unfolding log_messages
  log_messages-some port2 session_n [] f all =
      ap (λ c. some (record f { content = c })) (sym (append-nil f.content))
  log_messages-some port2 session_n (h ∷ hs) f all =
      let e = entry_bytes (h.clock.now, to_buffer h.msg) in
      ap (log_messages to_buffer true port2 session_n hs)
        (log_message-some port2 session_n h f all.0)
      ∙ (log_messages-some port2 session_n hs (record f { content = f.content ++ e }) all.1
          ∙ ap (λ c. some (record f { content = c }))
              (append_assoc f.content e (log_bytes (entries hs))))

  length-entries : (hs : List (Heard to_buffer)) → length (entries hs) ≡ length hs
  length-entries [] = refl
  length-entries (h ∷ hs) = ap suc (length-entries hs)

  -- The first message opens the file.
  log_messages-none :
      (port2 session_n : ℕ) (h : Heard to_buffer) (hs : List (Heard to_buffer))
      → h.host.mkdir_ok ≡ true
      → h.host.fopen_content ≡ some []
      → log_messages to_buffer true port2 session_n (h ∷ hs) none
        ≡ log_messages to_buffer true port2 session_n (h ∷ hs) (
            some
              (record { port2 = port2; date = h.host.date; session_n = session_n; content = [] }))
  unfolding log_messages log_message ensure_tlog_open open_tlog
  log_messages-none port2 session_n h hs dir file =
      let fresh : (open_tlog port2 session_n h.host none).0
          ≡ some
              (record { port2 = port2; date = h.host.date; session_n = session_n; content = [] }) =
        rw (dir, open_tlog, file) refl in
      ap
        (λ fp.
          log_messages to_buffer true port2 session_n hs
            (tlog_write_message to_buffer true h.clock h.msg fp))
        fresh

  -- With the log enabled, a session whose file opens empty at its first message, and complete writes:
  -- a reader who can tell each frame's length from its start finds every message that was heard, in
  -- order, with its time in microseconds, in the file of this port and session.
  pub log_messages-read_tlog :
      (frame_size : List ℕ → ℕ) (port2 session_n : ℕ) (h : Heard to_buffer)
      (hs : List (Heard to_buffer))
      → h.host.mkdir_ok ≡ true
      → h.host.fopen_content ≡ some []
      → All IsWritten (h ∷ hs)
      → All (IsEntry frame_size) (entries (h ∷ hs))
      → (f : TlogFile) × (log_messages to_buffer true port2 session_n (h ∷ hs) none ≡ some f)
        × (f.port2 ≡ port2)
        × (f.session_n ≡ session_n)
        × (read_tlog frame_size (length (h ∷ hs)) f.content ≡ entries (h ∷ hs))
  log_messages-read_tlog frame_size port2 session_n h hs dir file all framed =
      let es = entries (h ∷ hs) in
      let read = read_tlog-log_bytes frame_size (entries (h ∷ hs)) framed in
      (
        record { port2 = port2; date = h.host.date; session_n = session_n; content = log_bytes es },
        log_messages-none port2 session_n h hs dir file
            ∙ log_messages-some port2 session_n (h ∷ hs)
                (record { port2 = port2; date = h.host.date; session_n = session_n; content = [] })
                all,
        refl,
        refl,
        subst (λ n. read_tlog frame_size n (log_bytes (entries (h ∷ hs))) ≡ entries (h ∷ hs))
            (length-entries (h ∷ hs)) read,
      )
