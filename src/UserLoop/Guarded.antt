-- ===== src/UserLoop/Guarded.antt =====
-- The user's messages from the bytes on, where the entry asks for signatures on the user's side too
-- (KEY_FLAG_BIDI_SIGN).
mod Tests
use udpproxy.Prelude.{
  ℕ, ◌+◌, ◌≤◌, ◌≡◌, refl, sym, subst, ◌&&◌, ◌||◌, ◌==◌, some, List, [], ◌∷◌, ◌++◌, if-both, length,
  All,
}
use udpproxy.Message.{Message, Dialect}
use udpproxy.Binlog.History.{run}
use udpproxy.Database.Tdb.{Tdb}
use udpproxy.Link.{Wire}
use udpproxy.Link.Hear.{Ear, Hearing, Guarded, hear_all, hear_all-Guarded}
use udpproxy.Link.Relay.Ends.{IsSigned}
use udpproxy.Tlog.{log_messages}
use udpproxy.UserLoop.{Incoming, Setup, State, user_messages}
use udpproxy.UserLoop.Shares.{heard_of, calls, kept, messages, user_messages-shares}

module _ (d : Dialect) (to_buffer : Message → List ℕ) where
  -- The messages with what the system answers while each is handled, the first as the n-th.
  abbrev pub incoming_of :
      (ℕ → Message → Incoming d to_buffer) → ℕ → List Message → List (Incoming d to_buffer)
  incoming_of answer n [] = []
  incoming_of answer n (m ∷ ms) = answer n m ∷ incoming_of answer (n + 1) ms

  module _ (tdb : Tdb) (wire : Wire) where
    -- What the session has after the messages ms, of which the link has let through those.
    pub record OnlySigned (u : Setup d to_buffer) (s : State d to_buffer)
        (ms : List (Incoming d to_buffer)) : Type 0 where
      pub every : All (IsSigned d tdb wire) (messages d to_buffer ms)
      pub logged :
          (user_messages d to_buffer u ms s).tlog
          ≡ log_messages to_buffer u.tlog_enabled u.port2 u.session_n
              (heard_of d to_buffer ms)
              s.tlog
      pub recorded :
          (user_messages d to_buffer u ms s).binlog
          ≡ run d u.port2 u.session_n s.binlog (calls d to_buffer u ms)
      pub passed :
          (user_messages d to_buffer u ms s).passed
          ≡ s.passed ++ messages d to_buffer (kept d to_buffer u ms)
      pub forwarded : All (IsSigned d tdb wire) (messages d to_buffer (kept d to_buffer u ms))

  module _ (tdb : Tdb) (wire : Wire) (answer : ℕ → Message → Incoming d to_buffer)
      (answers : (n : ℕ) (m : Message) → (answer n m).heard.msg ≡ m) where
    messages-incoming :
        (n : ℕ) (ms : List Message) → messages d to_buffer (incoming_of answer n ms) ≡ ms
    messages-incoming n [] = refl
    messages-incoming n (m ∷ ms) = λ i. answers n m i ∷ messages-incoming (n + 1) ms i

    All-kept :
        (P : Message → Type 0) (u : Setup d to_buffer) (ms : List (Incoming d to_buffer))
        → All P (messages d to_buffer ms)
        → All P (messages d to_buffer (kept d to_buffer u ms))
    All-kept P u [] h = tt
    All-kept P u (m ∷ ms) h =
        if-both (λ (ks : List (Incoming d to_buffer)). All P (messages d to_buffer ks))
          (u.binlog_enabled
            && (m.heard.msg.msgid == d.id_remote_log_data_block
                || m.heard.msg.msgid == d.id_remote_log_block_status))
          (All-kept P u ms h.1) (h.0, All-kept P u ms h.1)

    -- On a user's link that wants signatures and has so far let through only signed messages, whatever
    -- bytes arrive, with one round of fuel for each: the loop ends, and every message that it gives to
    -- the telemetry log, to the dataflash log and on to the engineers carries a signature, and none is
    -- SETUP_SIGNING.
    pub user_messages-OnlySigned :
        (u : Setup d to_buffer) (s : State d to_buffer) (ears : ℕ → Ear d tdb wire) (fuel : ℕ)
        (bytes : List ℕ) (h : Hearing d tdb wire)
        → length bytes ≤ fuel
        → Guarded d tdb wire h
        → (h' : Hearing d tdb wire) × (hear_all d tdb wire ears fuel bytes h ≡ some h')
          × OnlySigned tdb wire u s (incoming_of answer 0 h'.heard)
    user_messages-OnlySigned u s ears fuel bytes h enough g =
        let (h', ends, kept_up) = hear_all-Guarded d tdb wire ears fuel bytes h enough g in
        let ms = incoming_of answer 0 h'.heard in
        let every =
          subst (All (IsSigned d tdb wire)) (sym (messages-incoming 0 h'.heard)) kept_up.all in
        let shares = user_messages-shares d to_buffer u ms s in
        (
          h',
          ends,
          record {
            every = every;
            logged = shares.0;
            recorded = shares.1;
            passed = shares.3;
            forwarded = All-kept (IsSigned d tdb wire) u ms every;
          },
        )
