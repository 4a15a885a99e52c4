-- ===== src/Binlog/History.antt =====
-- A BinlogWriter over time: what the main loop calls on it, in any order.
pub mod Gate
use udpproxy.Prelude.{ℕ, ◌≤◌, Bool, Option, List, [], ◌∷◌, arith, length, All}
use udpproxy.Message.{Message, Dialect}
use udpproxy.Binlog.Writer.{Writer, Host, new_writer}
use udpproxy.Binlog.Invariant.{Inv, new_writer-Inv}
use udpproxy.Binlog.Receive.{handle_block}
use udpproxy.Binlog.Receive.Keeps.{handle_block-Inv}
use udpproxy.Binlog.Receive.Limits.{FitsQuota, handle_block-FitsQuota}
use udpproxy.Binlog.Pump.{StatusPacket, tick}
use udpproxy.Binlog.Pump.Justified.{tick-Inv, tick-same_file}
use udpproxy.Binlog.Reboot.{observe, set_fc_sysid_filter}
use udpproxy.Binlog.Reboot.Detection.{observe-Inv, observe-FitsQuota, filter-Inv, filter-FitsQuota}

-- One call, with what the system answers during it.
pub data Call : Type 0 where
  block : Host → Message → Call
  look : Message → Option (List (List ℕ)) → Call
  pump_at : ℕ → (StatusPacket → Bool) → Call
  filter_on : ℕ → Call

unfoldable pub step : Dialect → ℕ → ℕ → Writer → Call → Writer
step d port2 n w (block host msg) = handle_block d w host port2 n msg
step d port2 n w (look msg names) = observe d w msg names
step d port2 n w (pump_at now accepts) = (tick d accepts now w).0
step d port2 n w (filter_on sysid) = set_fc_sysid_filter sysid w

unfoldable pub run : Dialect → ℕ → ℕ → Writer → List Call → Writer
run d port2 n w [] = w
run d port2 n w (c ∷ cs) = run d port2 n (step d port2 n w c) cs

step-Inv : (d : Dialect) (port2 n : ℕ) (w : Writer) (c : Call) → Inv w → Inv (step d port2 n w c)
unfolding step
step-Inv d port2 n w (block host msg) v = handle_block-Inv d w host port2 n msg v
step-Inv d port2 n w (look msg names) v = observe-Inv d w msg names v
step-Inv d port2 n w (pump_at now accepts) v = tick-Inv d accepts now w v
step-Inv d port2 n w (filter_on sysid) v = filter-Inv sysid w v

pub run_from-Inv :
    (d : Dialect) (port2 n : ℕ) (w : Writer) (cs : List Call) → Inv w → Inv (run d port2 n w cs)
unfolding run
run_from-Inv d port2 n w [] v = v
run_from-Inv d port2 n w (c ∷ cs) v =
    run_from-Inv d port2 n (step d port2 n w c) cs (step-Inv d port2 n w c v)

-- After any sequence of blocks, observed messages, ticks and filters set, from a new writer: only
-- received blocks are waiting to be acknowledged, only missing blocks below the highest are
-- chased by NACKs, every received block is at or below the highest and inside the tracked size of
-- the file, and a writer with no file open holds nothing of an earlier log.
pub run-Inv : (d : Dialect) (port2 n : ℕ) (cs : List Call) → Inv (run d port2 n new_writer cs)
run-Inv d port2 n cs = run_from-Inv d port2 n new_writer cs new_writer-Inv

-- The decoder gives at most 200 bytes of data.
abbrev pub ShortBlocks : Dialect → Call → Type 0
ShortBlocks d (block host msg) = length (d.decode_block msg).bytes ≤ 200
ShortBlocks d (look msg names) = Unit
ShortBlocks d (pump_at now accepts) = Unit
ShortBlocks d (filter_on sysid) = Unit

step-FitsQuota :
    (d : Dialect) (port2 n : ℕ) (w : Writer) (c : Call)
    → ShortBlocks d c
    → FitsQuota w
    → FitsQuota (step d port2 n w c)
unfolding step
step-FitsQuota d port2 n w (block host msg) h q = handle_block-FitsQuota d w host port2 n msg h q
step-FitsQuota d port2 n w (look msg names) h q = observe-FitsQuota d w msg names q
step-FitsQuota d port2 n w (pump_at now accepts) h q =
    let same = tick-same_file d accepts now w in rw (same.0, same.1) q
step-FitsQuota d port2 n w (filter_on sysid) h q = filter-FitsQuota sysid w q

pub run_from-FitsQuota :
    (d : Dialect) (port2 n : ℕ) (w : Writer) (cs : List Call)
    → All (ShortBlocks d) cs
    → FitsQuota w
    → FitsQuota (run d port2 n w cs)
unfolding run
run_from-FitsQuota d port2 n w [] h q = q
run_from-FitsQuota d port2 n w (c ∷ cs) h q =
    run_from-FitsQuota d port2 n (step d port2 n w c) cs h.1 (step-FitsQuota d port2 n w c h.0 q)

-- After any sequence of blocks of at most 200 bytes, observed messages, ticks and filters set,
-- from a new writer and whatever sequence numbers the blocks carry, the open file and the size
-- that is tracked for it are at most 1 GiB.
pub run-FitsQuota :
    (d : Dialect) (port2 n : ℕ) (cs : List Call)
    → All (ShortBlocks d) cs
    → FitsQuota (run d port2 n new_writer cs)
unfolding new_writer
run-FitsQuota d port2 n cs h = run_from-FitsQuota d port2 n new_writer cs h (omega arith)
