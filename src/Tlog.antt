-- ===== src/Tlog.antt =====
-- Class TlogWriter of tlog.cpp, tlog_write_message of mavlink.cpp, and how main_loop in
-- supportproxy.cpp uses them. The packing of a message, mavlink_msg_to_send_buffer, is the argument
-- `to_buffer`.
pub mod Reading
mod Tests
use udpproxy.Prelude.{
  ℕ, ◌%◌, ◌^◌, Bool, true, false, not, ◌&&◌, Option, none, some, List, [], ◌∷◌, ◌++◌, if◌then◌else◌,
  is_some, take,
}
use udpproxy.Prelude.BigEndian.{be_bytes}
use udpproxy.Message.{Message}

-- The file <base_dir>/<port2>/<date>/session<session_n>.tlog, opened to append.
pub record TlogFile : Type 0 where
  pub port2 : ℕ
  pub date : List ℕ
  pub session_n : ℕ
  pub content : List ℕ

-- `fp`.
abbrev pub TlogWriter : Type 0
TlogWriter = Option TlogFile

-- What the system answers to `open`: the date, whether mkpath_0700 succeeds, and what stands in the
-- file that fopen gives, if it does.
pub record Host : Type 0 where
  pub date : List ℕ
  pub mkdir_ok : Bool
  pub fopen_content : Option (List ℕ)

-- The writer after it, and what it returns.
unfoldable pub open_tlog : ℕ → ℕ → Host → TlogWriter → TlogWriter × Bool
open_tlog port2 session_n host (some f) = (some f, true)
open_tlog port2 session_n host none =
    if host.mkdir_ok
    then elim host.fopen_content [
      | none ↦ (none, false)
      | some bytes ↦ (
        some (record { port2 = port2; date = host.date; session_n = session_n; content = bytes }),
        true,
      )
    ]
    else (none, false)

-- What the system answers to `write_frame`: gettimeofday in microseconds, and how much each of the two
-- fwrite calls writes.
pub record Clocked : Type 0 where
  pub now : ℕ
  pub header_written : ℕ
  pub frame_written : ℕ

-- One record of the log.
pub put_frame : Clocked → List ℕ → TlogFile → TlogFile
put_frame c frame f = record f {
  content =
      f.content
      ++ (take c.header_written (be_bytes 8 (c.now % 2 ^ 64)) ++ take c.frame_written frame);
}

unfoldable pub write_frame : Clocked → List ℕ → TlogWriter → TlogWriter
write_frame c frame none = none
write_frame c [] (some f) = some f
write_frame c (b ∷ bs) (some f) = some (put_frame c (b ∷ bs) f)

unfoldable pub close_tlog : TlogWriter → TlogWriter
close_tlog fp = none

-- In main_loop: ensure_tlog_open.
pub ensure_tlog_open : Bool → ℕ → ℕ → Host → TlogWriter → TlogWriter
ensure_tlog_open tlog_enabled port2 session_n host fp =
    if tlog_enabled && not (is_some fp) then (open_tlog port2 session_n host fp).0 else fp

module _ (to_buffer : Message → List ℕ) where
  -- `nullptr` is `tlog_enabled` false.
  pub tlog_write_message : Bool → Clocked → Message → TlogWriter → TlogWriter
  tlog_write_message tlog_enabled c msg fp =
      if tlog_enabled && is_some fp then write_frame c (to_buffer msg) fp else fp

  -- A message that main_loop has received from either side, and what the system answers.
  pub record Heard : Type 0 where
    pub msg : Message
    pub host : Host
    pub clock : Clocked

  pub log_message : Bool → ℕ → ℕ → Heard → TlogWriter → TlogWriter
  log_message tlog_enabled port2 session_n h fp =
      tlog_write_message tlog_enabled h.clock h.msg
        (ensure_tlog_open tlog_enabled port2 session_n h.host fp)

  unfoldable pub log_messages : Bool → ℕ → ℕ → List Heard → TlogWriter → TlogWriter
  log_messages tlog_enabled port2 session_n [] fp = fp
  log_messages tlog_enabled port2 session_n (h ∷ hs) fp =
      log_messages tlog_enabled port2 session_n hs (log_message tlog_enabled port2 session_n h fp)
