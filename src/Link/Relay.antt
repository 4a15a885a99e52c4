-- ===== src/Link/Relay.antt =====
-- The loop of main_loop in supportproxy.cpp over the messages of a support engineer's datagram or
-- stream: receive_message on the engineer's link, then the telemetry log and send_message on the
-- user's link.
pub mod Ends
pub mod Counts
use udpproxy.Prelude.{
  ℕ, zero, suc, ◌+◌, ◌%◌, ◌^◌, Bool, not, Option, none, some, List, [], ◌∷◌, ◌++◌, if◌then◌else◌,
  length,
}
use udpproxy.Message.{Message, Dialect}
use udpproxy.Database.Tdb.{Tdb}
use udpproxy.Link.{Link, Wire}
use udpproxy.Link.Signing.{raise_timestamp}
use udpproxy.Link.Receive.{Env, Received, receive_message}
use udpproxy.Link.Send.{Probe, send_message}

-- What the system answers in one round of the loop.
pub record Round : Type 0 where
  pub env : Env
  pub probe : Probe
  pub now : ℕ
  pub taken : ℕ

-- The part of update_signing_timestamp that concerns the other link.
abbrev pub raised : Option ℕ → Link → Link
raised none l = l
raised (some stamp) l = raise_timestamp stamp l

module _ (d : Dialect) (tdb : Tdb) (wire : Wire) where
  open tdb use {Db}
  open wire use {Parser}

  -- The variables of the loop: c2.rx_msgs, mav1_tx_msgs, what tlog_write_message was given, and
  -- `failed`.
  pub record Relay : Type 0 where
    pub db : Db
    pub parser : Parser
    pub engineer : Link
    pub user : Link
    pub rx_msgs : ℕ
    pub tx_msgs : ℕ
    pub logged : List Message
    pub failed : Bool

  -- The effects of receive_message.
  unfoldable pub take_in : Received d tdb wire → Relay → Relay
  take_in got r = record r { db = got.db; parser = got.parser; engineer = got.link }

  -- The body of the loop.
  unfoldable pub pass_on : Round → Message → Relay → Relay
  pass_on round msg r =
      let sending = send_message d wire round.probe round.now round.taken r.user msg in
      record r {
        engineer = raised sending.stamp r.engineer;
        user = sending.link;
        rx_msgs = (r.rx_msgs + 1) % 2 ^ 32;
        tx_msgs = if sending.returned then (r.tx_msgs + 1) % 2 ^ 32 else r.tx_msgs;
        logged = r.logged ++ msg ∷ [];
        failed = not sending.returned;
      }

  -- `rounds n` answers the round that starts with n bytes; `none` where the fuel runs out.
  unfoldable pub relay : (ℕ → Round) → ℕ → List ℕ → Relay → Option Relay
  relay rounds fuel [] r = some r
  relay rounds zero (b ∷ bs) r = none
  relay rounds (suc fuel) (b ∷ bs) r =
      let round = rounds (length (b ∷ bs)) in
      let got = receive_message d tdb wire round.env r.db r.parser r.engineer (b ∷ bs) in
      elim got.result [
        | none ↦ some (take_in got r)
        | some msg ↦
            let r' = pass_on round msg (take_in got r) in
            let next = relay rounds fuel got.rest r' in if r'.failed then some r' else next
      ]
