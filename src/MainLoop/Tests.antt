-- ===== src/MainLoop/Tests.antt =====
-- Sessions of a few rounds: a user on UDP with an engineer on TCP, a user that goes silent, and a table
-- whose counters have reached their limit.
use udpproxy.Prelude.{
  ℕ, ◌*◌, ◌≤◌, refl, true, false, none, some, List, [], ◌∷◌, ◌++◌, arith, ◌==◌, length, replicate,
  length-replicate, length-take, All-replicate,
}
use udpproxy.Message.{Message}
use udpproxy.Database.Tests.Store.{records_tdb}
use udpproxy.MainLoop.{ready, Pair, Session, Turn, new_session, new_slot}
use udpproxy.MainLoop.Flow.{Keeps, Stops, Until}
use udpproxy.MainLoop.Rounds.{turn, turns}
use udpproxy.MainLoop.OneUser.{HasOneUser, turns-HasOneUser}
use udpproxy.MainLoop.Silence.{silence_ends}
use udpproxy.MainLoop.Starving.{HeldUp, accepts_hold_up}
use udpproxy.MainLoop.Recorded.{IsRecorded, turns-IsRecorded}
use udpproxy.MainLoop.Overrun.{visits_overrun}
use udpproxy.Slots.{Address, Slot, Table}
use udpproxy.Slots.Leak.{IsFree, Idle, visits}
use udpproxy.UserLoop.Tests.{dialect, to_buffer, incoming, setup}

short_blocks : (m : Message) → length (dialect.decode_block m).bytes ≤ 200
short_blocks m = omega (arith, length-take {0} 200 m.payload)

abbrev nobody : Address
nobody = record { ip = 0; port = 0; len = 0 }

abbrev peer : Address
peer = record { ip = 0x0100007f; port = 14550; len = 16 }

abbrev pair : Pair dialect to_buffer
pair = record { setup = setup; bidi = true; fc_sysid = 1; pid = 4711 }

-- The sockets of the port pair are 4, 5, 6 and 7.
abbrev start : Session dialect to_buffer
start = new_session dialect to_buffer pair (some 4) (some 5) (some 6) (some 7) nobody false

-- The round at the second n, in which nothing is ready.
abbrev idle_at : ℕ → Turn dialect to_buffer records_tdb
idle_at n = record {
  signal = none;
  commits = true;
  began = n * 1_000_000;
  selected = ready (λ fd. false);
  now = n * 1_000_000;
  tick_now = n * 1_000_000;
  snap_now = n * 1_000_000;
  clock = n;
  user_from = peer;
  connects = true;
  udp_input = record { size = none; messages = [] };
  user_accepted = none;
  user_ws = none;
  tcp_input = record { size = none; messages = [] };
  engineer_from = peer;
  engineer_input = record { size = none; messages = [] };
  engineer_accepted = none;
  readings = λ i. record { detected = false; bytes = record { size = none; messages = [] } };
  accepts = λ packet. true;
  forks = true;
  slot_ssl = λ i. false;
}

-- A datagram of the user with a heartbeat and a block.
abbrev user_at : ℕ → Turn dialect to_buffer records_tdb
user_at n = record (idle_at n) {
  selected = ready (λ fd. fd == 4);
  udp_input = record { size = some 300; messages = incoming 0 ∷ incoming 184 ∷ [] };
}

-- An engineer connects over TCP, on socket 9.
abbrev connect_at : ℕ → Turn dialect to_buffer records_tdb
connect_at n = record (idle_at n) { selected = ready (λ fd. fd == 7); engineer_accepted = some 9 }

-- Its connection brings a message.
abbrev engineer_at : ℕ → Turn dialect to_buffer records_tdb
engineer_at n = record (idle_at n) {
  selected = ready (λ fd. fd == 9);
  readings = λ i. record {
    detected = false;
    bytes = record {
      size = some 12;
      messages = record { heard = (incoming 0).heard; sent = true } ∷ [];
    };
  };
}

abbrev flight : List (Turn dialect to_buffer records_tdb)
flight = user_at 1 ∷ connect_at 2 ∷ user_at 3 ∷ engineer_at 4 ∷ user_at 5 ∷ []

turns-HasOneUser_example :
    Keeps
      (HasOneUser dialect to_buffer records_tdb pair false)
      (turns dialect to_buffer records_tdb pair flight start)
turns-HasOneUser_example =
    turns-HasOneUser dialect to_buffer records_tdb pair flight (some 4) (some 5) (some 6) (some 7)
      nobody false

turns-IsRecorded_example :
    Keeps
      (IsRecorded dialect to_buffer records_tdb pair short_blocks)
      (turns dialect to_buffer records_tdb pair flight start)
turns-IsRecorded_example =
    turns-IsRecorded dialect to_buffer records_tdb pair short_blocks flight (some 4) (some 5)
      (some 6) (some 7) nobody false

-- The user was heard at second 1; the engineer's messages do not count.
abbrev heard_once : Session dialect to_buffer
heard_once = record start { have_conn1 = true; sock1_tcp = none; last_pkt1 = 1_000_000 }

silence_ends_example : Stops (
    turns dialect to_buffer records_tdb pair
      ((connect_at 2 ∷ engineer_at 8 ∷ []) ++ idle_at 12 ∷ [])
      heard_once)
unfolding new_session
silence_ends_example =
    silence_ends dialect to_buffer records_tdb pair heard_once (connect_at 2 ∷ engineer_at 8 ∷ [])
      (idle_at 12) refl ((refl, refl), ((refl, refl), tt)) (omega arith)

abbrev hundred : List Slot
hundred = replicate 100 (new_slot nobody)

free : IsFree (new_slot nobody)
unfolding new_slot
free = refl

abbrev table_from : ℕ → Table
table_from c = record { slots = hundred; conn2_count = c; max_conn2_count = c }

table-Idle : Idle 0 (table_from 0)
table-Idle = record {
  free = All-replicate IsFree 100 (new_slot nobody) free;
  room = length-replicate 100 (new_slot nobody);
  count = refl;
  high = refl;
}

abbrev daily : List ℕ
daily = replicate 100 86_400_000_000

abbrev crowded : Session dialect to_buffer
crowded = record start { loop = record (start.loop) { table = visits peer daily (table_from 0) } }

abbrev visit_at : ℕ → Turn dialect to_buffer records_tdb
visit_at n = record (idle_at n) {
  selected = ready (λ fd. fd == 5);
  engineer_input = record { size = some 12; messages = [] };
}

visits_overrun_example :
    Until (λ v. ⊥) (turn dialect to_buffer records_tdb pair (visit_at 9) crowded)
unfolding new_session
visits_overrun_example =
    visits_overrun dialect to_buffer records_tdb pair crowded (visit_at 9) (λ fd. fd == 5) 12 peer
      daily (table_from 0) table-Idle (length-replicate 100 86_400_000_000) refl
      (record {
        alone = refl;
        calm = refl;
        answer = refl;
        there = refl;
        no_datagram = refl;
        no_stream = refl;
        no_connection = refl;
      })
      refl

-- Two connections of which the second cannot be accepted.
accepts_hold_up_example : Keeps (HeldUp dialect to_buffer records_tdb pair start) (
    turns dialect to_buffer records_tdb pair
      (connect_at 2 ∷ record (connect_at 3) { engineer_accepted = none } ∷ [])
      start)
unfolding new_session
accepts_hold_up_example =
    accepts_hold_up dialect to_buffer records_tdb pair start
      (connect_at 2 ∷ record (connect_at 3) { engineer_accepted = none } ∷ []) (refl, (refl, tt))
