-- ===== src/Message.antt =====
-- mavlink_message_t, and the constants and decoders of the generated MAVLink headers, which are not
-- in this repository: the operations of the proxy take them as an argument.
use udpproxy.Prelude.{ℕ, List}

pub record Message : Type 0 where
  pub msgid : ℕ
  pub sysid : ℕ
  pub compid : ℕ
  pub seq : ℕ
  pub incompat_flags : ℕ
  pub payload : List ℕ
  pub signature : List ℕ

-- mavlink_remote_log_data_block_t.
pub record Block : Type 0 where
  pub seqno : ℕ
  pub bytes : List ℕ

-- mavlink_setup_signing_t.
pub record SetupSigning : Type 0 where
  pub secret_key : List ℕ
  pub initial_timestamp : ℕ

pub record Dialect : Type 0 where
  pub id_heartbeat : ℕ
  pub id_system_time : ℕ
  pub id_setup_signing : ℕ
  pub id_remote_log_data_block : ℕ
  pub id_remote_log_block_status : ℕ
  pub comp_id_autopilot1 : ℕ
  -- MAV_REMOTE_LOG_DATA_BLOCK_START, _ACK and _NACK.
  pub block_start : ℕ
  pub status_ack : ℕ
  pub status_nack : ℕ
  pub decode_block : Message → Block
  pub decode_time_boot_ms : Message → ℕ
  pub decode_setup_signing : Message → SetupSigning
