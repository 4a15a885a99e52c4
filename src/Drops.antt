-- ===== src/Drops.antt =====
-- The drop requests of the web interface: process_drops of main_loop in supportproxy.cpp, from the
-- records of connections.tdb to the slots.
mod Done
mod Tests
use udpproxy.Prelude.{ℕ, ◌%◌, Bool, false, ◌&&◌, List, [], ◌∷◌, leb, ◌==◌, if◌then◌else◌, length}
use udpproxy.Database.Tdb.{Tdb, Bytes}
use udpproxy.Database.Bytes.{of_le, field}
use udpproxy.Database.Connections.{matches_port2, connentry_size, conn_delete}
use udpproxy.Slots.{Table}
use udpproxy.Slots.Admission.{process_drops}
use udpproxy.Snapshot.{conn_magic}

-- The tests of the callback on a record's data: its size, `magic`, and CONN_FLAG_DROP_REQUESTED.
unfoldable pub wants_drop : Bytes → Bool
wants_drop bytes =
    leb connentry_size (length bytes)
    && (of_le (field bytes 0 8) == conn_magic && of_le (field bytes 52 4) % 2 == 1)

-- `indices` after the traversal.
pub collect_drops : ℕ → List (Bytes × Bytes) → List ℕ
collect_drops port2 [] = []
collect_drops port2 ((key, bytes) ∷ rest) =
    let more = collect_drops port2 rest in
    if matches_port2 port2 key && wants_drop bytes then of_le (field key 4 4) ∷ more else more

module _ (tdb : Tdb) where
  open tdb use {Db, all}

  pub delete_drops : ℕ → List ℕ → Db → Db
  delete_drops port2 [] db = db
  delete_drops port2 (i ∷ is) db = delete_drops port2 is (conn_delete tdb db port2 i).0

  -- process_drops: the database, whether the user is to be dropped, and the table. `opens` says
  -- whether the transaction starts, `commits` whether conn_db_close_commit succeeds, whose answer the
  -- source leaves aside as it does that of conn_delete.
  pub process_requests : Bool → Bool → ℕ → Db → Table → Db × (Bool × Table)
  process_requests opens commits port2 db t =
      let indices = collect_drops port2 (all db) in
      if opens
      then (if commits then delete_drops port2 indices db else db, process_drops indices (false, t))
      else (db, (false, t))
