-- ===== src/MainLoop/Relaying.antt =====
-- The loop over an engineer's messages as main_loop sees it and as the links run it (Link/Relay).
mod Steps
mod Runs
mod Accounts
mod Tests
use udpproxy.Prelude.{
  ℕ, zero, suc, ◌≡◌, Bool, not, Option, none, some, List, [], ◌∷◌, ◌++◌, if◌then◌else◌, length,
}
use udpproxy.Message.{Message, Dialect}
use udpproxy.Database.Tdb.{Tdb}
use udpproxy.Link.{Wire}
use udpproxy.Link.Receive.{Received, receive_message}
use udpproxy.Link.Relay.{Round, Relay, take_in, pass_on}
use udpproxy.MainLoop.{Pair, Session, Relayed}
use udpproxy.Slots.{Slot}
use udpproxy.Tlog.{Heard, log_messages}

-- rx_msgs of a slot.
abbrev pub rx_of : ℕ → List Slot → Option ℕ
rx_of i [] = none
rx_of zero (s ∷ ss) = some s.rx_msgs
rx_of (suc i) (s ∷ ss) = rx_of i ss

module _ (d : Dialect) (to_buffer : Message → List ℕ) (tdb : Tdb) (p : Pair d to_buffer)
    (wire : Wire) where
  -- What the links make of the rounds: the messages that receive_message returns and the answers of
  -- send_message. `hear n` is a message, heard with n bytes left, and what the system answers to the log.
  module _ (rounds : ℕ → Round) (hear : ℕ → Message → Heard to_buffer) where
    abbrev pub got : ℕ → List ℕ → Relay d tdb wire → Received d tdb wire
    got b bs r =
        receive_message d tdb wire (rounds (length (b ∷ bs))).env r.db r.parser r.engineer (b ∷ bs)

    abbrev pub passed : ℕ → List ℕ → Message → Relay d tdb wire → Relay d tdb wire
    passed b bs msg r =
        pass_on d tdb wire (rounds (length (b ∷ bs))) msg (take_in d tdb wire (got b bs r) r)

    unfoldable pub trace : ℕ → List ℕ → Relay d tdb wire → List (Relayed d to_buffer)
    trace fuel [] r = []
    trace zero (b ∷ bs) r = []
    trace (suc fuel) (b ∷ bs) r = elim (got b bs r).result [
      | none ↦ []
      | some msg ↦
          let r' = passed b bs msg r in
          let rest = trace fuel (got b bs r).rest r' in
          record { heard = hear (length (b ∷ bs)) msg; sent = not r'.failed }
          ∷ (if r'.failed then [] else rest)
    ]

  abbrev pub heards : List (Relayed d to_buffer) → List (Heard to_buffer)
  heards [] = []
  heards (m ∷ ms) = m.heard ∷ heards ms

  abbrev pub texts : List (Relayed d to_buffer) → List Message
  texts [] = []
  texts (m ∷ ms) = m.heard.msg ∷ texts ms

  -- What the two loops have in common.
  pub record Agree (i : ℕ) (s : Session d to_buffer) (r : Relay d tdb wire) : Type 0 where
    pub tx : s.mav1_tx_msgs ≡ r.tx_msgs
    pub rx : rx_of i s.loop.table.slots ≡ some r.rx_msgs

  -- What main_loop makes of the messages ms in s, `out`, against the links at r', which had logged
  -- what r had and then them.
  pub record Follows (i : ℕ) (ms : List (Relayed d to_buffer)) (s : Session d to_buffer)
      (r r' : Relay d tdb wire) (out : Bool × Session d to_buffer) : Type 0 where
    pub agree : Agree i out.1 r'
    pub logged : r'.logged ≡ r.logged ++ texts ms
    pub written :
        out.1.loop.tlog
        ≡ log_messages to_buffer p.setup.tlog_enabled p.setup.port2 p.setup.session_n
            (heards ms)
            s.loop.tlog
    pub failed : out.0 ≡ r'.failed
