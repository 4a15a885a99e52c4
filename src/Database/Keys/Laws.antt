-- ===== src/Database/Keys/Laws.antt =====
-- What a caller of db_load_key and db_save_key may rely on.
use udpproxy.Prelude.{
  ℕ, zero, suc, ◌+◌, ◌^◌, ◌≤◌, ◌<◌, ◌≡◌, refl, sym, ap, ◌∙◌, subst, ◌≢◌, inl, inr, Bool, Option,
  none, some, List, [], ◌∷◌, ◌++◌, arith, ltb, Bool-cases, Option-cases, length, take, drop,
  length-append, replicate-zero, drop-append, take_front,
}
use mathlib.Core.List.{append-nil}
use udpproxy.Database.Tdb.{Tdb, Bytes}
use udpproxy.Database.Bytes.{le_bytes-injective}
use udpproxy.Database.KeyEntry.{
  KeyEntry, IsEntry, key_magic, keyentry_min_size, keyentry_size, load_entry, write_entry,
  read_entry,
}
use udpproxy.Database.KeyEntry.RoundTrip.{memory_eq, read_entry-write_entry, length-write_entry}
use udpproxy.Database.Keys.{int_key, parse_record, record_bytes, db_load_key, db_save_key}

-- What stands in a record beyond the struct.
abbrev pub tail_of : Option Bytes → Bytes
tail_of none = []
tail_of (some bs) = drop keyentry_size bs

drop_all {ℓ} : {A : Type ℓ} (n : ℕ) (xs : List A) → length xs ≤ n → drop n xs ≡ []
drop_all zero [] h = refl
drop_all zero (x ∷ xs) h = absurd (omega arith)
drop_all (suc n) [] h = refl
drop_all (suc n) (x ∷ xs) h = drop_all n xs (omega arith)

record_bytes_eq :
    (orig : Option Bytes) (ke : KeyEntry) → record_bytes orig ke ≡ write_entry ke ++ tail_of orig
unfolding record_bytes
record_bytes_eq none ke = sym (append-nil _)
record_bytes_eq (some bs) ke = elim (Bool-cases (ltb keyentry_size (length bs))) [
  | inl e ↦ rw e
  | inr e ↦ rw (e, drop_all keyentry_size bs (ground arith)) (sym (append-nil _))
]

load_entry-long :
    (bs : Bytes)
    → keyentry_size ≤ length bs
    → load_entry bs ≡ read_entry (take keyentry_size bs ++ [])
unfolding load_entry
load_entry-long bs h = elim (Bool-cases (ltb (length bs) keyentry_size)) [
  | inl e ↦ absurd (ground arith)
  | inr e ↦ rw (e, replicate-zero {A = ℕ} 0)
]

module _ (ke : KeyEntry) (tail : Bytes) (v : IsEntry ke) where
  written_size : length (write_entry ke ++ tail) ≡ keyentry_size + length tail
  written_size = omega (arith, length-append (write_entry ke) tail, length-write_entry ke v)

  load_entry-written : load_entry (write_entry ke ++ tail) ≡ ke
  load_entry-written =
      load_entry-long (write_entry ke ++ tail) (omega (arith, written_size))
      ∙ (ap (λ ws. read_entry (ws ++ []))
            (take_front keyentry_size (write_entry ke) tail (length-write_entry ke v))
          ∙ read_entry-write_entry ke [] (write_entry ke ++ []) v (memory_eq ke []))

  parse_record-written : ke.magic ≡ key_magic → parse_record (write_entry ke ++ tail) ≡ some ke
  unfolding parse_record
  parse_record-written m =
      elim (Bool-cases (ltb (length (write_entry ke ++ tail)) keyentry_min_size)) [
        | inl e ↦ absurd (ground (arith, written_size))
        | inr e ↦ rw (e, load_entry-written) (ground arith)
      ]

parse_record-magic : (bs : Bytes) (ke : KeyEntry) → parse_record bs ≡ some ke → ke.magic ≡ key_magic
unfolding parse_record
parse_record-magic bs ke h = ground (arith, h)

module _ (tdb : Tdb) where
  open tdb use {Db, fetch, store, fetch-store_self, fetch-store_ne}

  -- What loads has the magic word.
  pub db_load_key-magic :
      (db : Db) (port2 : ℕ) (ke : KeyEntry)
      → db_load_key tdb db port2 ≡ some ke
      → ke.magic ≡ key_magic
  unfolding db_load_key
  db_load_key-magic db port2 ke h = elim (Option-cases (fetch db (int_key port2))) [
    | inl e ↦ absurd (ground (arith, e, h))
    | inr (bs, e) ↦ parse_record-magic bs ke (rw (e, db_load_key) at h)
  ]

  module _ (db db' : Db) (allocates : Bool) (port2 : ℕ) (ke : KeyEntry) (v : IsEntry ke)
      (saved : db_save_key tdb db allocates port2 ke ≡ some db') where
    stored :
        store db (int_key port2) (write_entry ke ++ tail_of (fetch db (int_key port2))) ≡ some db'
    unfolding db_save_key
    stored = rw (← record_bytes_eq (fetch db (int_key port2)) ke) (ground arith)

    fetched :
        fetch db' (int_key port2) ≡ some (write_entry ke ++ tail_of (fetch db (int_key port2)))
    fetched = fetch-store_self db db' _ _ stored

    -- A successful save of an entry with the right magic, and with every field in the range of its C
    -- type, is loaded back as it was, whatever the record held before.
    pub db_load_key-save : ke.magic ≡ key_magic → db_load_key tdb db' port2 ≡ some ke
    unfolding db_load_key
    db_load_key-save m = rw (fetched, db_load_key) (parse_record-written ke _ v m)

    -- A successful save keeps the bytes that the record had beyond the struct, and changes the
    -- record of no other port.
    db_save_key_keeps :
        (other : ℕ)
        → port2 < 256 ^ 4
        → other < 256 ^ 4
        → port2 ≢ other
        → (tail_of (fetch db' (int_key port2)) ≡ tail_of (fetch db (int_key port2)))
          × (db_load_key tdb db' other ≡ db_load_key tdb db other)
    unfolding db_load_key
    db_save_key_keeps other hp ho ne = (
      rw fetched (
          subst
            (λ j.
              drop j (write_entry ke ++ tail_of (fetch db (int_key port2)))
              ≡ tail_of (fetch db (int_key port2)))
            (length-write_entry ke v) (drop-append (write_entry ke) _)),
      rw
          (
            fetch-store_ne db db' _ _ (int_key other) stored
                (λ e. ne (le_bytes-injective 4 port2 other hp ho e)),
            db_load_key,
          )
          refl,
    )
