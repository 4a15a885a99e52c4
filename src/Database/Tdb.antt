-- ===== src/Database/Tdb.antt =====
-- What the code uses of libtdb: a database maps keys to data, both byte strings. `store` and
-- `delete` answer `none` where the library reports an error. `all` is what tdb_traverse visits.
use udpproxy.Prelude.{ℕ, ◌≡◌, ◌≢◌, Option, true, none, some, List, is_some}
use mathlib.Core.List.{Memᴰ}

abbrev pub Bytes : Type 0
Bytes = List ℕ

-- The operations, and what the library documents of them.
pub record Tdb : Type 1 where
  pub Db : Type 0
  pub fetch : Db → Bytes → Option Bytes
  pub store : Db → Bytes → Bytes → Option Db
  pub delete : Db → Bytes → Option Db
  pub all : Db → List (Bytes × Bytes)
  pub fetch-store_self :
      (db db' : Db) (k v : Bytes) → store db k v ≡ some db' → fetch db' k ≡ some v
  pub fetch-store_ne :
      (db db' : Db) (k v j : Bytes) → store db k v ≡ some db' → k ≢ j → fetch db' j ≡ fetch db j
  pub fetch-delete_self : (db db' : Db) (k : Bytes) → delete db k ≡ some db' → fetch db' k ≡ none
  pub fetch-delete_ne :
      (db db' : Db) (k j : Bytes) → delete db k ≡ some db' → k ≢ j → fetch db' j ≡ fetch db j
  pub all-fetch : (db : Db) (k v : Bytes) → fetch db k ≡ some v → Memᴰ (k, v) (all db)

-- Deleting a record that is there succeeds. The library may report an error here, so it is no law, but a
-- condition of what deletes are to achieve.
abbrev pub Deletes : Tdb → Type 0
Deletes tdb =
    (db : tdb.Db) (k v : Bytes) → tdb.fetch db k ≡ some v → is_some (tdb.delete db k) ≡ true
