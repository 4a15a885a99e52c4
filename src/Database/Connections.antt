-- ===== src/Database/Connections.antt =====
-- conntdb.cpp: the records of connections.tdb, keyed by a port pair and a slot.

pub mod Laws
pub mod Opening
use udpproxy.Prelude.{
  ℕ, ◌+◌, Bool, true, false, Option, none, some, List, [], ◌∷◌, ◌++◌, ltb, ◌==◌, if◌then◌else◌,
  is_some, length, drop,
}
use udpproxy.Database.Tdb.{Tdb, Bytes}
use udpproxy.Database.Bytes.{le_bytes, of_le, field}

-- struct ConnEntry, without its padding words.
pub record ConnEntry : Type 0 where
  pub magic : ℕ
  pub connected_at : ℕ
  pub last_update : ℕ
  pub port2 : ℕ
  pub conn_index : ℕ
  pub pid : ℕ
  pub rx_msgs : ℕ
  pub tx_msgs : ℕ
  pub peer_ip_be : ℕ
  pub peer_port_be : ℕ
  pub transport : ℕ
  pub is_user : ℕ
  pub flags : ℕ

-- sizeof(ConnEntry): 60 bytes of fields, rounded up to the alignment of a uint64_t.
abbrev pub connentry_size : ℕ
connentry_size = 64

unfoldable pub write_conn : ConnEntry → Bytes
write_conn e =
    le_bytes 8 e.magic
    ++ (le_bytes 8 e.connected_at
        ++ (le_bytes 8 e.last_update
            ++ (le_bytes 4 e.port2
                ++ (le_bytes 4 e.conn_index
                    ++ (le_bytes 4 e.pid
                        ++ (le_bytes 4 e.rx_msgs
                            ++ (le_bytes 4 e.tx_msgs
                                ++ (le_bytes 4 e.peer_ip_be
                                    ++ (le_bytes 2 e.peer_port_be
                                        ++ (le_bytes 1 e.transport
                                            ++ (le_bytes 1 e.is_user
                                                ++ (le_bytes 4 e.flags ++ le_bytes 8 0))))))))))))

-- struct ConnKey, as make_key fills it.
pub make_key : ℕ → ℕ → Bytes
make_key port2 conn_index = le_bytes 4 port2 ++ le_bytes 4 conn_index

-- What follows the struct in the record that is there.
unfoldable pub conn_tail : Option Bytes → Bytes
conn_tail none = []
conn_tail (some orig) = if ltb connentry_size (length orig) then drop connentry_size orig else []

-- The test of collect_port2: a key of the size of a ConnKey, for this port pair.
pub matches_port2 : ℕ → Bytes → Bool
matches_port2 port2 key = if length key == 8 then of_le (field key 0 4) == port2 else false

-- `f.matches`: the keys that match, read back field by field.
pub collect_port2 : ℕ → List (Bytes × Bytes) → List Bytes
collect_port2 port2 [] = []
collect_port2 port2 ((key, value) ∷ rest) =
    let more = collect_port2 port2 rest in
    if matches_port2 port2 key
    then make_key (of_le (field key 0 4)) (of_le (field key 4 4)) ∷ more
    else more

module _ (tdb : Tdb) where
  open tdb use {Db, fetch, store, delete, all}

  unfoldable pub conn_write : Db → Bool → ConnEntry → Option Db
  conn_write db allocates ce =
      let key = make_key ce.port2 ce.conn_index in
      if allocates then store db key (write_conn ce ++ conn_tail (fetch db key)) else none

  -- The database after it, and whether it succeeded.
  unfoldable pub conn_delete : Db → ℕ → ℕ → Db × Bool
  conn_delete db port2 conn_index = elim (delete db (make_key port2 conn_index)) [
    | none ↦ (db, false)
    | some db' ↦ (db', true)
  ]

  -- One tdb_delete of the loop over the matches, and the loop, with the number removed so far.
  abbrev pub after_delete : Db → Bytes → Db
  after_delete db key = elim (delete db key) [ none ↦ db | some db' ↦ db' ]

  pub delete_keys : Db → List Bytes → ℕ → Db × ℕ
  delete_keys db [] n = (db, n)
  delete_keys db (key ∷ keys) n =
      delete_keys (after_delete db key) keys (if is_some (delete db key) then n + 1 else n)

  pub conn_delete_for_port2 : Db → ℕ → Db × ℕ
  conn_delete_for_port2 db port2 = delete_keys db (collect_port2 port2 (all db)) 0
