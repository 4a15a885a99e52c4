-- ===== src/Binlog/Tests.antt =====
-- Runs of a BinlogWriter on concrete blocks, with a concrete dialect and a system that answers yes.
use udpproxy.Prelude.{
  ℕ, ◌+◌, ◌≤◌, ◌≡◌, refl, ◌↔◌, true, false, none, some, List, [], ◌∷◌, arith, length, get_or,
  replicate, All, length-replicate,
}
use udpproxy.Message.{Message, Dialect}
use udpproxy.Binlog.Writer.{Writer, Host, LogFile, new_writer}
use udpproxy.Binlog.Invariant.{Inv, new_writer-Inv}
use udpproxy.Binlog.Receive.{
  handle_block, over_jump, over_quota, prospective_size, has_nack, max_per_port2_bytes,
}
use udpproxy.Binlog.Receive.Keeps.{handle_block-Inv}
use udpproxy.Binlog.Receive.Stored.{
  IsAccepted, Stored, handle_block_stores, handle_block_chases_gap,
}
use udpproxy.Binlog.Receive.Limits.{FitsQuota, handle_blocks, handle_blocks_stuck}
use udpproxy.Binlog.Pump.{tick}
use udpproxy.Binlog.Pump.Justified.{IsJustified, tick-IsJustified}
use udpproxy.Binlog.Reboot.{observe, is_watched, reboot_time_backward_ms}
use udpproxy.Binlog.Reboot.Detection.{observe_closes_iff, observe_wraps}
use udpproxy.Binlog.History.{Call, block, look, pump_at, filter_on}

-- The payload's first number is a block's seqno, or a boot time; 200 bytes of data follow.
abbrev dialect : Dialect
dialect = record {
  id_heartbeat = 0;
  id_system_time = 2;
  id_setup_signing = 256;
  id_remote_log_data_block = 184;
  id_remote_log_block_status = 185;
  comp_id_autopilot1 = 1;
  block_start = 2147483646;
  status_ack = 1;
  status_nack = 0;
  decode_block = λ m. record { seqno = get_or m.payload 0 0; bytes = replicate 200 0xa5 };
  decode_time_boot_ms = λ m. get_or m.payload 0 0;
  decode_setup_signing = λ m. record { secret_key = m.payload; initial_timestamp = 0 };
}

abbrev message : ℕ → ℕ → Message
message id n = record {
  msgid = id;
  sysid = 1;
  compid = 1;
  seq = 0;
  incompat_flags = 0;
  payload = n ∷ [];
  signature = [];
}

abbrev data_block : ℕ → Message
data_block n = message 184 n

abbrev host : Host
host = record {
  mkdir_ok = true;
  fopen_inode = some 77;
  tree_at_open = none;
  seek_ok = true;
  wrote = 200;
  tree = none;
  now = 5_000_000;
}

abbrev empty_file : LogFile
empty_file = record { session = 3; inode = 77; content = λ i. 0; size = 0 }

-- A writer whose file has just been opened.
abbrev open_writer : Writer
open_writer = record new_writer { fp = some empty_file; port2 = 10006 }

open_writer-Inv : Inv open_writer
open_writer-Inv = record {
  bytes = new_writer-Inv.bytes;
  below = new_writer-Inv.below;
  acked = new_writer-Inv.acked;
  chased = new_writer-Inv.chased;
  fresh = λ h. absurd (ground (arith, h));
}

first-Inv : Inv (handle_block dialect new_writer host 10006 3 (data_block 0))
first-Inv = handle_block-Inv dialect new_writer host 10006 3 (data_block 0) new_writer-Inv

accepted : IsAccepted dialect open_writer host (data_block 4)
unfolding over_jump over_quota prospective_size new_writer
accepted = record {
  jump_ok = refl;
  quota_ok = refl;
  seeks = refl;
  writes = refl;
  whole = length-replicate 200 0xa5;
}

handle_block_stores_example :
    Stored dialect open_writer empty_file
      (data_block 4)
      (handle_block dialect open_writer host 10006 3 (data_block 4))
handle_block_stores_example =
    handle_block_stores dialect open_writer empty_file host 10006 3 (data_block 4) open_writer-Inv
      refl accepted

new_highest : open_writer.highest_seen ≡ 0
unfolding new_writer
new_highest = refl

handle_block_chases_gap_example :
    has_nack 2 (handle_block dialect open_writer host 10006 3 (data_block 4)).nack_state ≡ true
handle_block_chases_gap_example =
    handle_block_chases_gap dialect open_writer empty_file host 10006 3 (data_block 4)
      open_writer-Inv refl accepted 2 (omega (arith, new_highest)) (omega (arith, new_highest))
      (omega arith)

new_writer-FitsQuota : FitsQuota new_writer
unfolding new_writer
new_writer-FitsQuota = omega arith

abbrev full_writer : Writer
full_writer = record open_writer { other_sessions_bytes = max_per_port2_bytes }

handle_blocks_stuck_example :
    handle_blocks dialect full_writer 10006 3 ((host, data_block 0) ∷ (host, data_block 1) ∷ [])
    ≡ full_writer
handle_blocks_stuck_example =
    handle_blocks_stuck dialect full_writer empty_file 10006 3
      ((host, data_block 0) ∷ (host, data_block 1) ∷ []) refl (omega arith)

-- A writer that has received the blocks 0 and 4.
abbrev gapped : Writer
gapped =
    handle_block dialect (handle_block dialect new_writer host 10006 3 (data_block 0)) host 10006 3
      (data_block 4)

gapped-Inv : Inv gapped
gapped-Inv = handle_block-Inv dialect _ host 10006 3 (data_block 4) first-Inv

tick-IsJustified_example :
    All (IsJustified dialect gapped 6_000_000) (tick dialect (λ p. true) 6_000_000 gapped).1
tick-IsJustified_example = tick-IsJustified dialect (λ p. true) 6_000_000 gapped gapped-Inv

abbrev tick_times : List ℕ
tick_times = 1_500_000 ∷ 1_700_000 ∷ 2_600_000 ∷ []

new_writer-waiting : new_writer.any_block_seen ≡ false
unfolding new_writer
new_writer-waiting = refl

-- A writer that has seen the boot time 60000 ms.
abbrev booted : ℕ → Writer
booted t = record open_writer { last_system_time_boot_ms = t }

watched : (n t : ℕ) → is_watched dialect (booted t) (message 2 n) ≡ true
unfolding is_watched new_writer
watched n t = refl

observe_closes_iff_example :
    (((observe dialect (booted 60_000) (message 2 40_000) none).fp ≡ none)
      ↔ (40_000 + reboot_time_backward_ms ≤ 60_000))
    × ((observe dialect (booted 60_000) (message 2 40_000) none).last_system_time_boot_ms ≡ 40_000)
observe_closes_iff_example =
    observe_closes_iff dialect (booted 60_000) empty_file (message 2 40_000) none refl
      (watched 40_000 60_000) (omega arith) (omega arith)

observe_wraps_example :
    (observe dialect (booted 4_294_960_000) (message 2 4_294_961_000) none).fp ≡ none
observe_wraps_example =
    observe_wraps dialect (booted 4_294_960_000) empty_file (message 2 4_294_961_000) none refl
      (watched 4_294_961_000 4_294_960_000) (omega arith) (omega arith) (omega arith) (omega arith)

abbrev flight : List Call
flight =
    filter_on 1
    ∷ block host (data_block 3)
    ∷ block host (data_block 0)
    ∷ block host (data_block 4)
    ∷ pump_at 6_000_000 (λ p. true)
    ∷ look (message 2 60_000) none
    ∷ look (message 2 100) none
    ∷ block host (data_block 0)
    ∷ []

block_size : length (replicate {A = ℕ} 200 0xa5) ≤ 200
block_size = omega (arith, length-replicate {A = ℕ} 200 0xa5)

new_writer-closed : new_writer.fp ≡ none
unfolding new_writer
new_writer-closed = refl
