-- ===== src/Link/Send.antt =====
-- send_message of mavlink.cpp, with socket_is_dead and tcp_writable_bytes of util.cpp.
pub mod Gate
use udpproxy.Prelude.{
  ℕ, ◌-◌, Bool, true, false, not, ◌&&◌, Option, none, some, List, [], ltb, ◌==◌, if◌then◌else◌,
  length,
}
use Prim.Native.Nat.{bit_and, bit_or}
use udpproxy.Message.{Message, Dialect}
use udpproxy.Link.{Link, Wire, seen_signing, put_signing}
use udpproxy.Link.Signing.{update_signing_timestamp}
use udpproxy.Link.Receive.{has_key_id}

-- What the system says of a TCP socket: SO_TYPE (whether it is a stream), poll (`none` where it
-- fails, and whether it reports an error), SO_ERROR and the state in TCP_INFO.
pub record Probe : Type 0 where
  pub stream : Option Bool
  pub poll_error : Option Bool
  pub so_error : Option ℕ
  pub is_writable_state : Option Bool
  pub outq : Option ℕ
  pub sndbuf : Option ℕ

abbrev pub or_default {ℓ} : {A : Type ℓ} → A → Option A → A
or_default a none = a
or_default a (some b) = b

pub socket_is_dead : Probe → Bool
socket_is_dead p =
    if or_default false p.stream
    then (if or_default true p.poll_error
        then true
        else if or_default 0 p.so_error == 0
        then not (or_default true p.is_writable_state)
        else true)
    else true

-- `none`: -1. The subtraction is clamped at 0.
pub tcp_writable_bytes : Probe → Option ℕ
tcp_writable_bytes p = elim p.outq [
  | none ↦ none
  | some outq ↦ elim p.sndbuf [ none ↦ none | some sndbuf ↦ some (sndbuf - outq) ]
]

-- `tcp_writable_bytes(fd) < 400`.
pub is_congested : Option ℕ → Bool
is_congested none = true
is_congested (some n) = ltb n 400

module _ (d : Dialect) (wire : Wire) where
  open wire use {iflag_signed, is_known, finalize}

  -- send_message: what it returns, its link, the stamp for the other links, and the bytes handed to
  -- send_data, if any.
  pub record Sending : Type 0 where
    pub returned : Bool
    pub link : Link
    pub stamp : Option ℕ
    pub bytes : List ℕ

  pub dropped : Bool → Link → Sending
  dropped answer l = record { returned = answer; link = l; stamp = none; bytes = [] }

  -- `msg2.incompat_flags`, a uint8_t.
  unfoldable pub strip : Message → Message
  strip msg = record msg {
    incompat_flags = msg.incompat_flags - bit_and msg.incompat_flags iflag_signed;
  }

  pub add : Message → Message
  add msg = record msg { incompat_flags = bit_or msg.incompat_flags iflag_signed }

  -- From the look-up of the message's lengths on. `taken` is how many bytes the transport takes.
  unfoldable pub transmit : ℕ → Link × Option ℕ → Message → Sending
  unfolding dropped
  transmit taken (l, stamp) msg =
      let (s, bytes) = finalize (seen_signing l) msg in
      if is_known msg
      then record {
        returned = ltb 0 (length bytes) && taken == length bytes;
        link = put_signing s l;
        stamp = stamp;
        bytes = bytes;
      }
      else record { returned = false; link = l; stamp = stamp; bytes = [] }

  pub remember : Message → Link → Link
  remember msg l =
      if msg.msgid == d.id_heartbeat
      then record l { last_sysid = msg.sysid; last_compid = msg.compid }
      else l

  pub stamped : ℕ → Link → Link × Option ℕ
  stamped now l = if l.key_loaded then update_signing_timestamp now l else (l, none)

  -- After the two tests of a TCP link.
  unfoldable pub send_open : ℕ → ℕ → Link → Message → Sending
  unfolding dropped strip add transmit remember stamped
  send_open now taken l msg =
      if has_key_id l.key_id
      then (if not l.got_signed_packet && not (msg.msgid == d.id_heartbeat)
          then dropped true l
          else transmit taken (stamped now (remember msg l)) (add msg))
      else transmit taken (l, none) (strip msg)

  unfoldable pub send_message : Probe → ℕ → ℕ → Link → Message → Sending
  unfolding dropped
  send_message probe now taken l msg =
      if l.is_tcp
      then (if socket_is_dead probe
          then dropped false l
          else if is_congested (tcp_writable_bytes probe)
          then dropped true l
          else send_open now taken l msg)
      else send_open now taken l msg
