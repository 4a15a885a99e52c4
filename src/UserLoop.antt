-- ===== src/UserLoop.antt =====
-- The loop of main_loop in supportproxy.cpp over the messages of the user: each goes to the telemetry
-- log, to the dataflash log, and, unless that takes it, to the engineers.
pub mod Shares
pub mod Guarded
mod Delivered
pub mod Tests
use udpproxy.Prelude.{
  ℕ, ◌+◌, ◌%◌, ◌^◌, Bool, true, false, ◌||◌, Option, List, [], ◌∷◌, ◌++◌, ◌==◌, if◌then◌else◌,
}
use udpproxy.Message.{Message, Dialect}
use udpproxy.Binlog.Writer.{Writer, Host}
use udpproxy.Binlog.Receive.{handle_block}
use udpproxy.Binlog.Reboot.{observe}
use udpproxy.Slots.{Table, UserSide, forward}
use udpproxy.Tlog.{TlogWriter, Heard, log_message}

-- `m.msgid` is that of a block or of a block's status.
pub is_remote_log : Dialect → Message → Bool
is_remote_log d msg =
    msg.msgid == d.id_remote_log_data_block || msg.msgid == d.id_remote_log_block_status

module _ (d : Dialect) (to_buffer : Message → List ℕ) where
  -- A message with what the system answers while it is handled: to the telemetry log, to handle_block,
  -- to next_session_n, and to send_message for each slot.
  pub record Incoming : Type 0 where
    pub heard : Heard to_buffer
    pub host : Host
    pub names : Option (List (List ℕ))
    pub sent : ℕ → Bool

  -- The session: p->flags, p->port2, session_n, and how the user is connected.
  pub record Setup : Type 0 where
    pub tlog_enabled : Bool
    pub binlog_enabled : Bool
    pub port2 : ℕ
    pub session_n : ℕ
    pub side : UserSide

  -- The variables of the loop, and the messages that went on to the engineers.
  pub record State : Type 0 where
    pub tlog : TlogWriter
    pub binlog : Writer
    pub table : Table
    pub mav1_rx_msgs : ℕ
    pub passed : List Message

  -- Whether the binlog takes the message.
  pub binlog_handle_user_msg : Setup → Incoming → Writer → Bool × Writer
  binlog_handle_user_msg u m w =
      let msg = m.heard.msg in
      let w' = observe d w msg m.names in
      if u.binlog_enabled
      then (if is_remote_log d msg
          then (
            true,
            if msg.msgid == d.id_remote_log_data_block
                then handle_block d w' m.host u.port2 u.session_n msg
                else w',
          )
          else (false, w'))
      else (false, w)

  pub user_message : Setup → Incoming → State → State
  user_message u m s =
      let (taken, w) = binlog_handle_user_msg u m s.binlog in
      record s {
        tlog = log_message to_buffer u.tlog_enabled u.port2 u.session_n m.heard s.tlog;
        binlog = w;
        table = if taken then s.table else forward u.side m.sent s.table;
        mav1_rx_msgs = (s.mav1_rx_msgs + 1) % 2 ^ 32;
        passed = if taken then s.passed else s.passed ++ m.heard.msg ∷ [];
      }

  pub user_messages : Setup → List Incoming → State → State
  user_messages u [] s = s
  user_messages u (m ∷ ms) s = user_messages u ms (user_message u m s)
