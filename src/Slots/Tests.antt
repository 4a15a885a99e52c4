-- ===== src/Slots/Tests.antt =====
-- Runs of the engineers' slots on concrete tables.
use udpproxy.Prelude.{
  ℕ, ◌≡◌, refl, sym, true, false, none, some, List, [], ◌∷◌, arith, get_elem?, replicate, All,
  length-replicate, All-replicate,
}
use udpproxy.Slots.{Address, Slot, Table, user_udp, forward}
use udpproxy.Slots.Admission.{tcp_eof}
use udpproxy.Slots.Leak.{IsFree, Idle}
use udpproxy.Slots.Forward.{eof_strands_last}
use udpproxy.Slots.Counted.{
  Event, datagram, connection, hangup, dropped, handle_events, IsCounted, handle_events-IsCounted,
}
use udpproxy.Slots.Used.{used_count}

abbrev peer : Address
peer = record { ip = 0x0100007f; port = 14550; len = 16 }

abbrev blank : Slot
blank = record {
  sock = none;
  used = false;
  tcp_active = false;
  has_ws = false;
  from = peer;
  is_udp = false;
  last_pkt = 0;
  connected_at = 0;
  rx_msgs = 0;
  tx_msgs = 0;
}

abbrev engineer : Slot
engineer = record blank { used = true; sock = some 7 }

abbrev blank_table : Table
blank_table = record { slots = replicate 100 blank; conn2_count = 0; max_conn2_count = 0 }

abbrev two_engineers : Table
two_engineers = record {
  slots = engineer ∷ engineer ∷ replicate 98 blank;
  conn2_count = 2;
  max_conn2_count = 2;
}

blank_table-Idle : Idle 0 blank_table
blank_table-Idle = record {
  free = All-replicate IsFree 100 blank refl;
  room = length-replicate 100 blank;
  count = refl;
  high = refl;
}

abbrev daily : List ℕ
daily = replicate 101 86_400_000_000

eof_strands_last_example :
    (get_elem? (tcp_eof 0 two_engineers).slots 1 ≡ some engineer)
    × (get_elem? (forward user_udp (λ i. true) (tcp_eof 0 two_engineers)).slots 1 ≡ some engineer)
eof_strands_last_example =
    eof_strands_last user_udp (λ i. true) 0 1 two_engineers (λ e. omega (arith, e)) refl refl
      (omega arith)

used_count-free : (ss : List Slot) → All IsFree ss → used_count ss ≡ 0
unfolding used_count
used_count-free [] h = refl
used_count-free (s ∷ ss) h = rw (h.0, used_count-free ss h.1) refl

blank_table-IsCounted : IsCounted blank_table
blank_table-IsCounted = record {
  room = length-replicate 100 blank;
  counted = sym (used_count-free (replicate 100 blank) (All-replicate IsFree 100 blank refl));
}

abbrev morning : List Event
morning = connection peer 7 1 ∷ datagram peer 2 2 ∷ hangup 0 ∷ connection peer 8 3 ∷ dropped 2 ∷ []

handle_events-IsCounted_example : IsCounted (handle_events morning blank_table)
handle_events-IsCounted_example = handle_events-IsCounted morning blank_table blank_table-IsCounted
