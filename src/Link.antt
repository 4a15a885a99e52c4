-- ===== src/Link.antt =====
-- class MAVLink of mavlink.h and mavlink.cpp: one link to a peer, with its signing state. The parser,
-- the signatures and the packing of messages are the MAVLink library, which is not in this
-- repository, and a parameter, Wire. Each channel belongs to one link, so that what the library keeps
-- of a channel, `status->signing`, stands in its link: `attached` says that it points to `signing`.
-- keys.tdb opens whenever it is opened for reading.
pub mod Clock
pub mod Signing
pub mod Receive
pub mod Send
pub mod Relay
pub mod Hear
pub mod Tests
use udpproxy.Prelude.{ℕ, Bool, false, Option, none, some, List, if◌then◌else◌, replicate}
use udpproxy.Message.{Message}
use udpproxy.Slots.{Address}

-- signing.last_status.
pub data SigningStatus : Type 0 where
  bad_signature replay old_timestamp no_streams too_many_streams other_status : SigningStatus

-- mavlink_signing_t.
pub record SigningState : Type 0 where
  pub secret_key : List ℕ
  pub link_id : ℕ
  pub timestamp : ℕ
  pub sign_outgoing : Bool
  pub has_callback : Bool
  pub last_status : SigningStatus

-- ZERO_STRUCT(signing).
abbrev pub no_signing : SigningState
no_signing = record {
  secret_key = replicate 32 0;
  link_id = 0;
  timestamp = 0;
  sign_outgoing = false;
  has_callback = false;
  last_status = other_status;
}

-- A message that mavlink_parse_char has completed, and whether it asked the callback about it.
pub record Parsed : Type 0 where
  pub message : Message
  pub asked : Bool

-- What the code uses of the library: the parser's state with the table of streams, and its reading
-- and writing of `status->signing`.
pub record Wire : Type 1 where
  pub Parser : Type 0
  pub parse_char : Parser → Option SigningState → ℕ → Parser × Option SigningState × Option Parsed
  pub clear_streams : Parser → Parser
  -- MAVLINK_IFLAG_SIGNED.
  pub iflag_signed : ℕ
  -- The message's lengths are not both 0.
  pub is_known : Message → Bool
  -- mavlink_msg_statustext_pack_chan on the link's channel, by the sender's two ids.
  pub pack_text : Option SigningState → ℕ → ℕ → Option SigningState
  -- mavlink_finalize_message_buffer and mavlink_msg_to_send_buffer.
  pub finalize : Option SigningState → Message → Option SigningState × List ℕ

pub record Link : Type 0 where
  pub fd : ℕ
  pub chan : ℕ
  pub key_id : Option ℕ  -- `none`: -1
  pub is_tcp : Bool
  pub allow_websocket : Bool
  pub key_loaded : Bool
  pub got_signed_packet : Bool
  pub got_bad_signature : Bool
  pub sendto : Option Address  -- `none`: use_sendto is false
  pub ws : Option ℕ
  pub signing : SigningState
  pub attached : Bool
  pub last_signing_save : ℕ
  pub last_signing_warning : ℕ
  pub last_sysid : ℕ
  pub last_compid : ℕ
  pub bad_sig_count : ℕ

-- Where send_data sends.
pub data Target : Type 0 where
  by_ws : ℕ → Target
  by_sendto : Address → ℕ → Target
  by_fd : ℕ → Target

by_address : Option Address → ℕ → Target
by_address none fd = by_fd fd
by_address (some a) fd = by_sendto a fd

by_pointer : Option ℕ → Option Address → ℕ → Target
unfolding by_address
by_pointer none sendto fd = by_address sendto fd
by_pointer (some ws) sendto fd = by_ws ws

pub send_data : Link → Target
unfolding by_pointer
send_data l = by_pointer l.ws l.sendto l.fd

pub set_ws : ℕ → Link → Link
set_ws ws l = record l { ws = some ws }

pub set_sendto : Address → Link → Link
set_sendto a l = record l { sendto = some a }

-- What the library sees through `status->signing`.
abbrev pub seen_signing : Link → Option SigningState
seen_signing l = if l.attached then some l.signing else none

-- The library's changes to it.
abbrev pub put_signing : Option SigningState → Link → Link
put_signing none l = l
put_signing (some s) l = record l { signing = s }
