-- ===== src/Drops/Tests.antt =====
-- A drop request for the first engineer.
use udpproxy.Prelude.{ℕ, ◌≡◌, refl, true, false, none, some, List, [], ◌∷◌, ◌++◌, arith}
use udpproxy.Database.Tests.Store.{
  Records, records_tdb, records_delete, fetch_record, same_bytes_refl,
}
use udpproxy.Database.Connections.{make_key}
use udpproxy.Database.Bytes.{of_le}
use udpproxy.Slots.{Slot, Table}
use udpproxy.Slots.Admission.{slot_used}
use udpproxy.Drops.{wants_drop, process_requests}
use udpproxy.Drops.Done.{process_requests_done}

abbrev engineer : Slot
engineer = record {
  sock = none;
  used = true;
  tcp_active = true;
  has_ws = false;
  from = record { ip = 1; port = 2; len = 16 };
  is_udp = true;
  last_pkt = 0;
  connected_at = 0;
  rx_msgs = 0;
  tx_msgs = 0;
}

abbrev table : Table
table = record { slots = engineer ∷ engineer ∷ []; conn2_count = 2; max_conn2_count = 2 }

-- CONN_MAGIC, 44 bytes, the flags, and 8 bytes.
abbrev four : List ℕ
four = 0 ∷ 0 ∷ 0 ∷ 0 ∷ []

abbrev request : List ℕ
request =
    0x53
    ∷ 0x45
    ∷ 0x42
    ∷ 0x45
    ∷ 0x6e
    ∷ 0x6e
    ∷ 0x6f
    ∷ 0x43
    ∷ (four
        ++ (four
            ++ (four
                ++ (four
                    ++ (four
                        ++ (four
                            ++ (four
                                ++ (four
                                    ++ (four
                                        ++ (four
                                            ++ (four ++ (1 ∷ 0 ∷ 0 ∷ 0 ∷ (four ++ four)))))))))))))

abbrev requests : Records
requests = (make_key 10006 1, request) ∷ []

asked : wants_drop request ≡ true
unfolding wants_drop of_le
asked = refl

there : fetch_record requests (make_key 10006 1) ≡ some request
there = rw (same_bytes_refl (make_key 10006 1)) refl

process_requests_done_example :
    let r = process_requests records_tdb true true 10006 requests table in
    (fetch_record r.0 (make_key 10006 1) ≡ none) × (slot_used 0 r.1.1.slots ≡ false)
process_requests_done_example =
    process_requests_done records_tdb records_delete true 10006 0 requests table request
      (omega arith) (omega arith) there asked
