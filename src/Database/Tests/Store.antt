-- ===== src/Database/Tests/Store.antt =====
-- A database as an association list, and an entry of keys.tdb.
use udpproxy.Prelude.{
  ◌≡◌, refl, sym, ap, ◌∙◌, subst, ◌≢◌, inl, inr, Bool, true, false, ◌&&◌, Option, none, some, List,
  [], ◌∷◌, ◌++◌, arith, ◌==◌, if◌then◌else◌, Bool-cases, Option-cases, is_some, replicate,
  length-replicate,
}
use mathlib.Core.List.{Memᴰ}
use udpproxy.Database.Tdb.{Tdb, Bytes, Deletes}
use udpproxy.Database.KeyEntry.{KeyEntry, IsEntry, key_magic, write_entry}
use udpproxy.Database.Keys.{int_key, record_bytes}

abbrev same_bytes : Bytes → Bytes → Bool
same_bytes [] [] = true
same_bytes [] (y ∷ ys) = false
same_bytes (x ∷ xs) [] = false
same_bytes (x ∷ xs) (y ∷ ys) = x == y && same_bytes xs ys

same_bytes_eq : (xs ys : Bytes) → same_bytes xs ys ≡ true → xs ≡ ys
same_bytes_eq [] [] h = refl
same_bytes_eq [] (y ∷ ys) h = absurd (ground (arith, h))
same_bytes_eq (x ∷ xs) [] h = absurd (ground (arith, h))
same_bytes_eq (x ∷ xs) (y ∷ ys) h =
    let rest = same_bytes_eq xs ys (ground (arith, h)) in
    let first : x ≡ y = ground (arith, h) in λ i. first i ∷ rest i

pub same_bytes_refl : (xs : Bytes) → same_bytes xs xs ≡ true
same_bytes_refl [] = refl
same_bytes_refl (x ∷ xs) = ground (arith, same_bytes_refl xs)

same_bytes_ne : (xs ys : Bytes) → xs ≢ ys → same_bytes xs ys ≡ false
same_bytes_ne xs ys h = elim (Bool-cases (same_bytes xs ys)) [
  | inl e ↦ absurd (h (same_bytes_eq xs ys e))
  | inr e ↦ e
]

abbrev pub Records : Type 0
Records = List (Bytes × Bytes)

abbrev pub fetch_record : Records → Bytes → Option Bytes
fetch_record [] k = none
fetch_record ((j, v) ∷ db) k = if same_bytes j k then some v else fetch_record db k

abbrev remove_record : Records → Bytes → Records
remove_record [] k = []
remove_record ((j, v) ∷ db) k =
    let rest = remove_record db k in if same_bytes j k then rest else (j, v) ∷ rest

pub fetch-remove_self : (db : Records) (k : Bytes) → fetch_record (remove_record db k) k ≡ none
fetch-remove_self [] k = refl
fetch-remove_self ((j, v) ∷ db) k = elim (Bool-cases (same_bytes j k)) [
  | inl e ↦ rw e (fetch-remove_self db k)
  | inr e ↦ rw (e, e) (fetch-remove_self db k)
]

pub fetch-remove_ne :
    (db : Records) (k j : Bytes) → k ≢ j → fetch_record (remove_record db k) j ≡ fetch_record db j
fetch-remove_ne [] k j h = refl
fetch-remove_ne ((i, v) ∷ db) k j h = elim (Bool-cases (same_bytes i k)) [
  | inl e ↦
      let other = same_bytes_ne i j (λ s. h (sym (same_bytes_eq i k e) ∙ s)) in
      rw (e, other) (fetch-remove_ne db k j h)
  | inr e ↦ rw e (ap (λ o. if same_bytes i j then some v else o) (fetch-remove_ne db k j h))
]

pub mem-fetch : (db : Records) (k v : Bytes) → fetch_record db k ≡ some v → Memᴰ (k, v) db
mem-fetch [] k v h = absurd (ground (arith, h))
mem-fetch ((j, u) ∷ db) k v h = elim (Bool-cases (same_bytes j k)) [
  | inl e ↦
      let w : u ≡ v = ground (arith, h, e) in
      Memᴰ.head (λ i. (sym (same_bytes_eq j k e) i, sym w i))
  | inr e ↦ Memᴰ.tail (mem-fetch db k v (ground (arith, h, e)))
]

abbrev from_some {ℓ} : {A : Type ℓ} → A → Option A → A
from_some d none = d
from_some d (some a) = a

pub fetch-put_self :
    (db db' : Records) (k v : Bytes) → some ((k, v) ∷ db) ≡ some db' → fetch_record db' k ≡ some v
fetch-put_self db db' k v e =
    subst (λ r. fetch_record r k ≡ some v) (ap (from_some db) e) (rw (same_bytes_refl k) refl)

pub fetch-put_ne :
    (db db' : Records) (k v j : Bytes)
    → some ((k, v) ∷ db) ≡ some db'
    → k ≢ j
    → fetch_record db' j ≡ fetch_record db j
fetch-put_ne db db' k v j e h =
    subst (λ r. fetch_record r j ≡ fetch_record db j) (ap (from_some db) e)
      (rw (same_bytes_ne k j h) refl)

abbrev delete_record : Records → Bytes → Option Records
delete_record db k = if is_some (fetch_record db k) then some (remove_record db k) else none

pub delete_record-some :
    (db db' : Records) (k : Bytes) → delete_record db k ≡ some db' → remove_record db k ≡ db'
delete_record-some db db' k e = elim (Option-cases (fetch_record db k)) [
  | inl n ↦ absurd (ground (arith, e, n))
  | inr (v, n) ↦ ap (from_some db) (rw n at e)
]

abbrev pub records_tdb : Tdb
records_tdb = record {
  Db = Records;
  fetch = fetch_record;
  store = λ db k v. some ((k, v) ∷ db);
  delete = delete_record;
  all = λ db. db;
  fetch-store_self = fetch-put_self;
  fetch-store_ne = fetch-put_ne;
  fetch-delete_self = λ db db' k e.
      subst (λ r. fetch_record r k ≡ none) (delete_record-some db db' k e) (fetch-remove_self db k);
  fetch-delete_ne = λ db db' k j e h.
      subst (λ r. fetch_record r j ≡ fetch_record db j) (delete_record-some db db' k e)
        (fetch-remove_ne db k j h);
  all-fetch = mem-fetch;
}

pub records_delete : Deletes records_tdb
records_delete db k v e = rw e refl

abbrev pub entry : KeyEntry
entry = record {
  magic = key_magic;
  timestamp = 1_700_000_000;
  secret_key = replicate 32 0xa5;
  port1 = 14550;
  connections = 3;
  count1 = 700;
  count2 = 800;
  name = replicate 32 b'n';
  flags = 5;
  log_retention_days = replicate 4 0;
  fc_sysid = 1;
  reserved = replicate 60 0;
}

pub entry-IsEntry : IsEntry entry
entry-IsEntry = record {
  magic_word = omega arith;
  timestamp_word = omega arith;
  secret_size = length-replicate 32 0xa5;
  port1_word = omega arith;
  connections_word = omega arith;
  count1_word = omega arith;
  count2_word = omega arith;
  name_size = length-replicate 32 b'n';
  flags_word = omega arith;
  retention_size = length-replicate 4 0;
  fc_sysid_word = omega arith;
  reserved_size = length-replicate 60 0;
}

-- Port 10006 has a record from before, with two bytes beyond the struct.
abbrev pub before : Records
before = (int_key 10006, write_entry entry ++ 1 ∷ 2 ∷ []) ∷ []

abbrev pub after : Records
after = (int_key 10006, record_bytes (fetch_record before (int_key 10006)) entry) ∷ before
