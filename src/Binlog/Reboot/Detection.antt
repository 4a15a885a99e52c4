-- ===== src/Binlog/Reboot/Detection.antt =====
-- When observe takes a SYSTEM_TIME for a reboot, and what the rotation leaves.
use udpproxy.Prelude.{
  ℕ, ◌+◌, ◌-◌, ◌^◌, ◌≤◌, ◌<◌, ◌≡◌, refl, ◌↔◌, inl, inr, true, Option, none, some, List, arith,
  Bool-cases,
}
use udpproxy.Message.{Message, Dialect}
use udpproxy.Binlog.Bitmap.{seqno_seen-nil}
use udpproxy.Binlog.Writer.{Writer, LogFile, close_log}
use udpproxy.Binlog.Invariant.{Inv}
use udpproxy.Binlog.Receive.Limits.{FitsQuota}
use udpproxy.Binlog.Reboot.{
  set_fc_sysid_filter, reboot_time_backward_ms, rotate_for_reboot, is_watched, is_reboot, observe,
}

pub rotate-Inv : (w : Writer) (names : Option (List (List ℕ))) → Inv (rotate_for_reboot w names)
unfolding rotate_for_reboot close_log
rotate-Inv w names = record {
  bytes = tt;
  below = λ s h. ground (arith, seqno_seen-nil s);
  acked = tt;
  chased = tt;
  fresh = λ h. (refl, refl, refl, refl);
}

timed-Inv : (w : Writer) (t : ℕ) → Inv w → Inv (record w { last_system_time_boot_ms = t })
timed-Inv w t v = record {
  bytes = v.bytes;
  below = v.below;
  acked = v.acked;
  chased = v.chased;
  fresh = v.fresh;
}

-- observe keeps the invariant.
pub observe-Inv :
    (d : Dialect) (w : Writer) (msg : Message) (names : Option (List (List ℕ)))
    → Inv w
    → Inv (observe d w msg names)
unfolding observe
observe-Inv d w msg names v = elim (Bool-cases (is_watched d w msg)) [
  | inr e ↦ rw e v
  | inl e ↦ elim (Bool-cases (is_reboot w (d.decode_time_boot_ms msg))) [
    | inl e' ↦ rw (e, e') (timed-Inv _ _ (rotate-Inv w names))
    | inr e' ↦ rw (e, e') (timed-Inv w _ v)
  ]
]

module _ (d : Dialect) (w : Writer) (f : LogFile) (msg : Message) (names : Option (List (List ℕ)))
    (here : w.fp ≡ some f) (watched : is_watched d w msg ≡ true) where
  -- For a SYSTEM_TIME that is watched, with a log open and a boot time seen before, as long as the
  -- new boot time is below 2^32 - 10000 ms: the log is closed exactly where the boot time went back
  -- by 10 s or more, and the new boot time is remembered either way.
  pub observe_closes_iff :
      0 < w.last_system_time_boot_ms
      → d.decode_time_boot_ms msg < 2 ^ 32 - reboot_time_backward_ms
      → (((observe d w msg names).fp ≡ none)
          ↔ (d.decode_time_boot_ms msg + reboot_time_backward_ms ≤ w.last_system_time_boot_ms))
        × ((observe d w msg names).last_system_time_boot_ms ≡ d.decode_time_boot_ms msg)
  unfolding observe rotate_for_reboot close_log is_reboot
  observe_closes_iff past room = ground arith

  -- In the last 10 s before the boot time of 32 bits wraps, the comparison wraps first: the log is
  -- closed although the boot time went forward.
  pub observe_wraps :
      d.decode_time_boot_ms msg < 2 ^ 32
      → 2 ^ 32 - reboot_time_backward_ms ≤ d.decode_time_boot_ms msg
      → reboot_time_backward_ms ≤ w.last_system_time_boot_ms
      → w.last_system_time_boot_ms ≤ d.decode_time_boot_ms msg
      → (observe d w msg names).fp ≡ none
  unfolding observe rotate_for_reboot close_log is_reboot
  observe_wraps word late past forward = ground arith

pub observe-FitsQuota :
    (d : Dialect) (w : Writer) (msg : Message) (names : Option (List (List ℕ)))
    → FitsQuota w
    → FitsQuota (observe d w msg names)
unfolding observe rotate_for_reboot close_log
observe-FitsQuota d w msg names q = ground arith

pub filter-Inv : (sysid : ℕ) (w : Writer) → Inv w → Inv (set_fc_sysid_filter sysid w)
unfolding set_fc_sysid_filter
filter-Inv sysid w v = record {
  bytes = v.bytes;
  below = v.below;
  acked = v.acked;
  chased = v.chased;
  fresh = v.fresh;
}

pub filter-FitsQuota :
    (sysid : ℕ) (w : Writer) → FitsQuota w → FitsQuota (set_fc_sysid_filter sysid w)
unfolding set_fc_sysid_filter
filter-FitsQuota sysid w q = q
