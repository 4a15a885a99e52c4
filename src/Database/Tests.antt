-- ===== src/Database/Tests.antt =====
-- Runs of keydb.cpp and conntdb.cpp on a database.
pub mod Store
use udpproxy.Prelude.{◌≡◌, refl, true, some}
use udpproxy.Database.Tests.Store.{records_tdb, entry, entry-IsEntry, before, after}
use udpproxy.Database.Keys.{db_load_key, db_save_key}
use udpproxy.Database.Keys.Laws.{db_load_key-save}

saved : db_save_key records_tdb before true 10006 entry ≡ some after
unfolding db_save_key
saved = refl

db_load_key-save_example : db_load_key records_tdb after 10006 ≡ some entry
db_load_key-save_example =
    db_load_key-save records_tdb before after true 10006 entry entry-IsEntry saved refl
