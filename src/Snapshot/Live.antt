-- ===== src/Snapshot/Live.antt =====
-- What stands in connections.tdb after a snapshot.
use udpproxy.Prelude.{ℕ, ◌^◌, ◌≤◌, ◌<◌, ◌≡◌, true, none, List, if◌then◌else◌, is_some}
use udpproxy.Slots.{Slot}
use udpproxy.Database.Tdb.{Tdb, Bytes, Deletes}
use udpproxy.Database.Connections.{ConnEntry, make_key}
use udpproxy.Snapshot.{View, slot_entry, write_one}

module _ (tdb : Tdb) (deletes : Deletes tdb) (v : View) (hp : v.port2 < 256 ^ 4)
    (stores : (db : tdb.Db) (k b : Bytes) → is_some (tdb.store db k b) ≡ true) where
  open tdb use {Db, fetch, store, fetch-store_self, fetch-store_ne}

  abbrev key_of : ConnEntry → Bytes
  key_of e = make_key e.port2 e.conn_index

  -- The keys from n on are free.
  abbrev Free : ℕ → Db → Type 0
  Free n db = (j : ℕ) → n ≤ j → j < 256 ^ 4 → fetch db (make_key v.port2 j) ≡ none

  after_slot : ℕ → Slot → Db → Db
  after_slot n s db = if s.used then write_one tdb true v db (slot_entry v n s) else db
