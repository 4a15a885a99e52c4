-- ===== src/Database/Keys/Totals.antt =====
-- The end of main_loop in supportproxy.cpp: a session's packets are added to the entry of its port.
use udpproxy.Prelude.{
  ℕ, ◌+◌, ◌%◌, ◌^◌, ◌≡◌, refl, ◌∙◌, Bool, true, false, not, ◌&&◌, ◌||◌, none, some, arith, ◌==◌,
  if◌then◌else◌,
}
use udpproxy.Database.Tdb.{Tdb}
use udpproxy.Database.KeyEntry.{KeyEntry, IsEntry}
use udpproxy.Database.Keys.{db_load_key, db_save_key}
use udpproxy.Database.Keys.Laws.{db_load_key-save, db_load_key-magic}

-- uint32_t sums.
pub add_session : ℕ → ℕ → KeyEntry → KeyEntry
add_session count1 count2 ke = record ke {
  count1 = (ke.count1 + count1) % 2 ^ 32;
  count2 = (ke.count2 + count2) % 2 ^ 32;
  connections = (ke.connections + 1) % 2 ^ 32;
}

add_session-magic :
    (count1 count2 : ℕ) (ke : KeyEntry) → (add_session count1 count2 ke).magic ≡ ke.magic
unfolding add_session
add_session-magic count1 count2 ke = refl

module _ (tdb : Tdb) where
  open tdb use {Db}

  -- `opens` says whether the transaction starts. A save that fails is committed as it is.
  pub count_session : Db → Bool → Bool → ℕ → ℕ → ℕ → Db
  count_session db opens allocates port2 count1 count2 =
      if (count1 == 0 && count2 == 0) || not opens then db else elim (db_load_key tdb db port2) [
        | none ↦ db
        | some ke ↦ elim (db_save_key tdb db allocates port2 (add_session count1 count2 ke)) [
          | none ↦ db
          | some db' ↦ db'
        ]
      ]

  add_session-IsEntry :
      (count1 count2 : ℕ) (ke : KeyEntry) → IsEntry ke → IsEntry (add_session count1 count2 ke)
  unfolding add_session
  add_session-IsEntry count1 count2 ke v = record {
    magic_word = v.magic_word;
    timestamp_word = v.timestamp_word;
    secret_size = v.secret_size;
    port1_word = v.port1_word;
    connections_word = omega arith;
    count1_word = omega arith;
    count2_word = omega arith;
    name_size = v.name_size;
    flags_word = v.flags_word;
    retention_size = v.retention_size;
    fc_sysid_word = v.fc_sysid_word;
    reserved_size = v.reserved_size;
  }

  -- After a session with packets, for an entry that loads and a save that succeeds: the entry that
  -- loads next has the sums and one connection more, and is otherwise as it was.
  pub db_load_key-count_session :
      (db db' : Db) (allocates : Bool) (port2 count1 count2 : ℕ) (ke : KeyEntry)
      → (count1 == 0 && count2 == 0) ≡ false
      → db_load_key tdb db port2 ≡ some ke
      → IsEntry ke
      → db_save_key tdb db allocates port2 (add_session count1 count2 ke) ≡ some db'
      → db_load_key tdb (count_session db true allocates port2 count1 count2) port2
        ≡ some (add_session count1 count2 ke)
  unfolding count_session
  db_load_key-count_session db db' allocates port2 count1 count2 ke some_packets found v works =
      let magic : (add_session count1 count2 ke).magic ≡ ke.magic =
        add_session-magic count1 count2 ke in
      let m = magic ∙ db_load_key-magic tdb db port2 ke found in
      rw (some_packets, found, works)
        (db_load_key-save tdb db db' allocates port2 (add_session count1 count2 ke)
          (add_session-IsEntry count1 count2 ke v) works m)
