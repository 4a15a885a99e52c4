-- ===== src/UserLoop/Shares.antt =====
-- What each component gets of the user's messages.
use udpproxy.Prelude.{
  ℕ, ◌≡◌, refl, sym, ap, ◌∙◌, Bool, true, false, ◌&&◌, ◌||◌, List, [], ◌∷◌, ◌++◌, arith, ◌==◌,
  if◌then◌else◌,
}
use mathlib.Core.List.{append_assoc, append-nil}
use udpproxy.Message.{Message, Dialect}
use udpproxy.Binlog.Writer.{Writer}
use udpproxy.Binlog.History.{Call, block, look, run, step}
use udpproxy.Slots.{Table, UserSide, forward}
use udpproxy.Tlog.{Heard, log_messages}
use udpproxy.UserLoop.{
  is_remote_log, Incoming, Setup, State, binlog_handle_user_msg, user_message, user_messages,
}

module _ (d : Dialect) (to_buffer : Message → List ℕ) where
  abbrev pub heard_of : List (Incoming d to_buffer) → List (Heard to_buffer)
  heard_of [] = []
  heard_of (m ∷ ms) = m.heard ∷ heard_of ms

  -- The calls on the binlog writer.
  abbrev pub calls_of : Setup d to_buffer → Incoming d to_buffer → List Call
  calls_of u m =
      if u.binlog_enabled
      then (if m.heard.msg.msgid == d.id_remote_log_data_block
          then look m.heard.msg m.names ∷ block m.host m.heard.msg ∷ []
          else look m.heard.msg m.names ∷ [])
      else []

  abbrev pub calls : Setup d to_buffer → List (Incoming d to_buffer) → List Call
  calls u [] = []
  calls u (m ∷ ms) = calls_of u m ++ calls u ms

  -- The messages that are not taken.
  abbrev pub kept : Setup d to_buffer → List (Incoming d to_buffer) → List (Incoming d to_buffer)
  kept u [] = []
  kept u (m ∷ ms) =
      let id = m.heard.msg.msgid in
      if u.binlog_enabled
        && (id == d.id_remote_log_data_block || id == d.id_remote_log_block_status)
      then kept u ms
      else m ∷ kept u ms

  abbrev pub messages : List (Incoming d to_buffer) → List Message
  messages [] = []
  messages (m ∷ ms) = m.heard.msg ∷ messages ms

  abbrev pub forward_all : UserSide → List (Incoming d to_buffer) → Table → Table
  forward_all side [] t = t
  forward_all side (m ∷ ms) t = forward_all side ms (forward side m.sent t)

  run-append :
      (port2 n : ℕ) (w : Writer) (cs ds : List Call)
      → run d port2 n w (cs ++ ds) ≡ run d port2 n (run d port2 n w cs) ds
  unfolding run
  run-append port2 n w [] ds = refl
  run-append port2 n w (c ∷ cs) ds = run-append port2 n (step d port2 n w c) cs ds

  user_message-binlog :
      (u : Setup d to_buffer) (m : Incoming d to_buffer) (w : Writer)
      → (binlog_handle_user_msg d to_buffer u m w).1 ≡ run d u.port2 u.session_n w (calls_of u m)
  unfolding binlog_handle_user_msg run step is_remote_log
  user_message-binlog u m w = ground arith

  taken_eq :
      (u : Setup d to_buffer) (m : Incoming d to_buffer) (w : Writer)
      → (binlog_handle_user_msg d to_buffer u m w).0 ≡ (
          u.binlog_enabled
          && (m.heard.msg.msgid == d.id_remote_log_data_block
              || m.heard.msg.msgid == d.id_remote_log_block_status))
  unfolding binlog_handle_user_msg is_remote_log
  taken_eq u m w = ground arith

  forward_share :
      (taken : Bool) (side : UserSide) (m : Incoming d to_buffer) (ms : List (Incoming d to_buffer))
      (t : Table)
      → forward_all side ms (if taken then t else forward side m.sent t)
        ≡ forward_all side (if taken then ms else m ∷ ms) t
  forward_share true side m ms t = refl
  forward_share false side m ms t = refl

  passed_share :
      (taken : Bool) (ps : List Message) (m : Incoming d to_buffer)
      (ms : List (Incoming d to_buffer))
      → (if taken then ps else ps ++ m.heard.msg ∷ []) ++ messages ms
        ≡ ps ++ messages (if taken then ms else m ∷ ms)
  passed_share true ps m ms = refl
  passed_share false ps m ms = append_assoc ps (m.heard.msg ∷ []) (messages ms)

  -- For any messages of the user and any state: the telemetry log has been given all of them, in
  -- order; the binlog writer, if it is enabled, has seen each, and each block after that, and nothing
  -- else; and the engineers were sent, in order, all but the messages of the remote log, or all if
  -- the binlog is not enabled.
  pub user_messages-shares :
      (u : Setup d to_buffer) (ms : List (Incoming d to_buffer)) (s : State d to_buffer)
      → let after = user_messages d to_buffer u ms s in
        (after.tlog
          ≡ log_messages to_buffer u.tlog_enabled u.port2 u.session_n (heard_of ms) s.tlog)
        × (after.binlog ≡ run d u.port2 u.session_n s.binlog (calls u ms))
        × (after.table ≡ forward_all u.side (kept u ms) s.table)
        × (after.passed ≡ s.passed ++ messages (kept u ms))
  unfolding user_messages user_message log_messages run
  user_messages-shares u [] s = (refl, refl, refl, sym (append-nil s.passed))
  user_messages-shares u (m ∷ ms) s =
      let rest = user_messages-shares u ms (user_message d to_buffer u m s) in
      let taken = taken_eq u m s.binlog in
      let id = m.heard.msg.msgid in
      let c =
        u.binlog_enabled
        && (id == d.id_remote_log_data_block || id == d.id_remote_log_block_status) in
      (
        rest.0,
        rest.1
            ∙ (ap (λ w. run d u.port2 u.session_n w (calls u ms)) (user_message-binlog u m s.binlog)
                ∙ sym (run-append u.port2 u.session_n s.binlog (calls_of u m) (calls u ms))),
        rest.2
            ∙ (ap
                  (λ b.
                    forward_all u.side (kept u ms)
                      (if b then s.table else forward u.side m.sent s.table))
                  taken
                ∙ forward_share c u.side m (kept u ms) s.table),
        rest.3
            ∙ (ap
                  (λ b.
                    (if b then s.passed else s.passed ++ m.heard.msg ∷ []) ++ messages (kept u ms))
                  taken
                ∙ passed_share c s.passed m (kept u ms)),
      )
