-- ===== src/UserLoop/Delivered.antt =====
-- What the engineers and the readers of the telemetry log have of the user's messages.
mod Tests
use udpproxy.Prelude.{
  ℕ, suc, ◌&&◌, ◌||◌, ◌==◌, ◌+◌, ◌%◌, ◌^◌, ◌<◌, ◌≡◌, refl, sym, ap, ◌∙◌, subst, true, none, some,
  List, [], ◌∷◌, arith, length, All, get_elem?, if-both,
}
use udpproxy.Message.{Message, Dialect}
use udpproxy.Binlog.History.{run}
use udpproxy.Slots.{Slot, Table, UserSide, user_udp, user_tcp, count_tx, forward}
use udpproxy.Slots.Reach.{IsReached, forward_reached}
use udpproxy.Tlog.{TlogFile, log_messages}
use udpproxy.Tlog.Reading.{read_tlog, entries, IsWritten, IsEntry, log_messages-read_tlog}
use udpproxy.UserLoop.{Incoming, Setup, State, user_messages}
use udpproxy.UserLoop.Shares.{heard_of, calls, kept, forward_all, user_messages-shares}

-- Slots that differ in what they have sent.
abbrev pub sent_more : ℕ → Slot → Slot
sent_more n s = record s { tx_msgs = (s.tx_msgs + n) % 2 ^ 32 }

module _ (d : Dialect) (to_buffer : Message → List ℕ) where
  -- Every send of the message succeeds.
  abbrev pub IsTaken : Incoming d to_buffer → Type 0
  IsTaken m = (i : ℕ) → m.sent i ≡ true

  kept-IsTaken :
      (u : Setup d to_buffer) (ms : List (Incoming d to_buffer))
      → All IsTaken ms
      → All IsTaken (kept d to_buffer u ms)
  kept-IsTaken u [] h = tt
  kept-IsTaken u (m ∷ ms) h =
      if-both (All IsTaken)
        (u.binlog_enabled
          && (m.heard.msg.msgid == d.id_remote_log_data_block
              || m.heard.msg.msgid == d.id_remote_log_block_status))
        (kept-IsTaken u ms h.1) (h.0, kept-IsTaken u ms h.1)

  sent_more-count_tx : (n : ℕ) (s : Slot) → sent_more n (count_tx s) ≡ sent_more (suc n) s
  unfolding count_tx
  sent_more-count_tx n s =
      let same : ((s.tx_msgs + 1) % 2 ^ 32 + n) % 2 ^ 32 ≡ (s.tx_msgs + suc n) % 2 ^ 32 =
        omega arith in
      ap (λ k. record s { tx_msgs = k }) same

  IsReached-count_tx : (side : UserSide) (s : Slot) → IsReached side s → IsReached side (count_tx s)
  unfolding count_tx
  IsReached-count_tx user_udp s h = h
  IsReached-count_tx user_tcp s h = h

  forward_all_reached :
      (side : UserSide) (k : ℕ) (ms : List (Incoming d to_buffer)) (t : Table) (s : Slot)
      → All IsTaken ms
      → k < t.max_conn2_count
      → s.tx_msgs < 2 ^ 32
      → get_elem? t.slots k ≡ some s
      → IsReached side s
      → get_elem? (forward_all d to_buffer side ms t).slots k ≡ some (sent_more (length ms) s)
  unfolding count_tx
  forward_all_reached side k [] t s takes low small e r =
      let same : s.tx_msgs ≡ (s.tx_msgs + 0) % 2 ^ 32 = omega (arith, small) in
      e ∙ ap (λ n. some (record s { tx_msgs = n })) same
  forward_all_reached side k (m ∷ ms) t s takes low small e r =
      let next = forward_reached side m.sent takes.0 k t s low e r in
      let bound = next.1 in
      forward_all_reached side k ms (forward side m.sent t) (count_tx s) takes.1
        (omega (arith, bound, low)) (omega arith) next.0 (IsReached-count_tx side s r)
      ∙ ap some (sent_more-count_tx (length ms) s)

  length-heard_of :
      (ms : List (Incoming d to_buffer)) → length (heard_of d to_buffer ms) ≡ length ms
  length-heard_of [] = refl
  length-heard_of (m ∷ ms) = ap suc (length-heard_of ms)

  -- What a session has after the user's messages: in the slot k, as s was; in the telemetry log; and in
  -- the dataflash log.
  pub record IsDelivered (frame_size : List ℕ → ℕ) (u : Setup d to_buffer)
      (ms : List (Incoming d to_buffer)) (before after : State d to_buffer) (k : ℕ) (s : Slot)
      : Type 0 where
    pub sent : get_elem? after.table.slots k ≡ some (sent_more (length (kept d to_buffer u ms)) s)
    pub logged :
        (f : TlogFile) × (after.tlog ≡ some f)
        × (f.port2 ≡ u.port2)
        × (f.session_n ≡ u.session_n)
        × (read_tlog frame_size (length ms) f.content ≡ entries to_buffer (heard_of d to_buffer ms))
    pub recorded : after.binlog ≡ run d u.port2 u.session_n before.binlog (calls d to_buffer u ms)

  -- For one or more messages of the user, where the telemetry log is enabled, not open before and opens
  -- empty, every frame is written whole and tells its length, and every send succeeds: a used slot
  -- below max_conn2_count that the loop sends to counts one message sent for each message but those of
  -- the remote log, or for all if the dataflash log is not enabled, and is otherwise as it was; a
  -- reader of the telemetry log finds every message, in order, with its time; and the dataflash log,
  -- if it is enabled, has looked at each message and been given each block after that.
  pub user_messages-IsDelivered :
      (frame_size : List ℕ → ℕ) (u : Setup d to_buffer) (m : Incoming d to_buffer)
      (ms : List (Incoming d to_buffer)) (st : State d to_buffer) (k : ℕ) (s : Slot)
      → u.tlog_enabled ≡ true
      → st.tlog ≡ none
      → m.heard.host.mkdir_ok ≡ true
      → m.heard.host.fopen_content ≡ some []
      → All (IsWritten to_buffer) (heard_of d to_buffer (m ∷ ms))
      → All (IsEntry frame_size) (entries to_buffer (heard_of d to_buffer (m ∷ ms)))
      → All IsTaken (m ∷ ms)
      → k < st.table.max_conn2_count
      → s.tx_msgs < 2 ^ 32
      → get_elem? st.table.slots k ≡ some s
      → IsReached u.side s
      → IsDelivered frame_size u (m ∷ ms) st (user_messages d to_buffer u (m ∷ ms) st) k s
  user_messages-IsDelivered frame_size u m ms st k s on closed dir file written framed takes low
        small e r =
      let all = m ∷ ms in
      let shares = user_messages-shares d to_buffer u (m ∷ ms) st in
      let hs = heard_of d to_buffer ms in
      let (f, log, port, n, read) =
        log_messages-read_tlog to_buffer frame_size u.port2 u.session_n m.heard hs dir file written
          framed in
      let given =
        subst (λ b. log_messages to_buffer b u.port2 u.session_n (m.heard ∷ hs) st.tlog ≡ some f)
          (sym on)
          (subst (λ w. log_messages to_buffer true u.port2 u.session_n (m.heard ∷ hs) w ≡ some f)
            (sym closed) log) in
      let count = length-heard_of (m ∷ ms) in
      record {
        sent =
            ap (λ (t : Table). get_elem? t.slots k) shares.2
            ∙ forward_all_reached u.side k (kept d to_buffer u (m ∷ ms)) st.table s
                (kept-IsTaken u (m ∷ ms) takes) low small e r;
        logged = (
          f,
          shares.0 ∙ given,
          port,
          n,
          subst (λ i. read_tlog frame_size i f.content ≡ entries to_buffer (m.heard ∷ hs)) count
              read,
        );
        recorded = shares.1;
      }
