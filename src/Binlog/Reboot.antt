-- ===== src/Binlog/Reboot.antt =====
-- observe and rotate_for_reboot of binlog.cpp, and set_fc_sysid_filter of binlog.h.
pub mod Detection
use udpproxy.Prelude.{
  ℕ, ◌+◌, Bool, not, ◌&&◌, ◌||◌, Option, List, [], leb, ◌==◌, if◌then◌else◌, is_some,
}
use udpproxy.Message.{Message, Dialect}
use udpproxy.Session.Number.{next_session_n}
use udpproxy.Binlog.Writer.{Writer, close_log}
use udpproxy.Binlog.Receive.{u32}

abbrev pub reboot_time_backward_ms : ℕ
reboot_time_backward_ms = 10000

-- `names` is the directory that next_session_n scans.
unfoldable pub rotate_for_reboot : Writer → Option (List (List ℕ)) → Writer
unfolding close_log
rotate_for_reboot w names = record (close_log w) {
  seen_bitmap = [];
  highest_seen = 0;
  pending_acks = [];
  nack_state = [];
  last_start_sent = 0;
  last_system_time_boot_ms = 0;
  pending_session_n = next_session_n names;
}

pub set_fc_sysid_filter : ℕ → Writer → Writer
set_fc_sysid_filter sysid w = record w { fc_sysid_filter = sysid }

-- The early returns: only SYSTEM_TIME, of the autopilot, and of the configured sysid if there is one.
unfoldable pub is_watched : Dialect → Writer → Message → Bool
is_watched d w msg =
    (msg.msgid == d.id_system_time && msg.compid == d.comp_id_autopilot1)
    && (w.fc_sysid_filter == 0 || msg.sysid == w.fc_sysid_filter)

-- The comparison is made in uint32_t.
pub is_reboot : Writer → ℕ → Bool
is_reboot w time_boot_ms =
    (not (w.last_system_time_boot_ms == 0)
      && leb (u32 (time_boot_ms + reboot_time_backward_ms)) w.last_system_time_boot_ms)
    && is_some w.fp

pub observe : Dialect → Writer → Message → Option (List (List ℕ)) → Writer
observe d w msg names =
    if is_watched d w msg
    then record (if is_reboot w (d.decode_time_boot_ms msg) then rotate_for_reboot w names else w) {
      last_system_time_boot_ms = d.decode_time_boot_ms msg;
    }
    else w
