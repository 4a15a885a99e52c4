-- ===== src/Database/Keys.antt =====
-- db_load_key and db_save_key of keydb.cpp. The argument `allocates` says whether malloc succeeds.
pub mod Laws
pub mod Totals
use udpproxy.Prelude.{ℕ, Bool, Option, none, some, ◌++◌, ltb, ◌==◌, if◌then◌else◌, length, drop}
use udpproxy.Database.Tdb.{Tdb, Bytes}
use udpproxy.Database.Bytes.{le_bytes}
use udpproxy.Database.KeyEntry.{
  KeyEntry, key_magic, keyentry_min_size, keyentry_size, load_entry, write_entry,
}

-- The bytes of an int key; port2 is its bit pattern.
abbrev pub int_key : ℕ → Bytes
int_key port2 = le_bytes 4 port2

-- What a record of the database loads as: nothing if it is too short or of another kind.
pub parse_record : Bytes → Option KeyEntry
parse_record bs =
    if ltb (length bs) keyentry_min_size
    then none
    else let key = load_entry bs in if key.magic == key_magic then some key else none

-- What the writer puts in place of a record: the struct, then what the record had beyond it.
pub record_bytes : Option Bytes → KeyEntry → Bytes
record_bytes none ke = write_entry ke
record_bytes (some orig) ke =
    if ltb keyentry_size (length orig)
    then write_entry ke ++ drop keyentry_size orig
    else write_entry ke

module _ (tdb : Tdb) where
  open tdb use {Db, fetch, store}

  -- `none` where the source returns false.
  unfoldable pub db_load_key : Db → ℕ → Option KeyEntry
  db_load_key db port2 = elim (fetch db (int_key port2)) [ none ↦ none | some d ↦ parse_record d ]

  unfoldable pub db_save_key : Db → Bool → ℕ → KeyEntry → Option Db
  db_save_key db allocates port2 ke =
      if allocates
      then store db (int_key port2) (record_bytes (fetch db (int_key port2)) ke)
      else none
