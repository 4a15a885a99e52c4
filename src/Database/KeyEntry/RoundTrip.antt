-- ===== src/Database/KeyEntry/RoundTrip.antt =====
-- Reading back a KeyEntry from its bytes.
use native.Mathlib.Nat.{add-zero, add-suc}
use mathlib.Core.List.{append_assoc}
use udpproxy.Prelude.{
  ℕ, zero, suc, ◌+◌, ◌^◌, ◌<◌, ◌≡◌, refl, ap, ◌∙◌, subst, List, [], ◌∷◌, ◌++◌, arith, length, take,
  drop, length-append, take-append, drop-append,
}
use udpproxy.Database.Bytes.{le_bytes, of_le, field, of_le-le_bytes, length-le_bytes}
use udpproxy.Database.KeyEntry.{KeyEntry, IsEntry, read_entry, write_entry, keyentry_size}

drop-nil {ℓ} : (A : Type ℓ) (n : ℕ) → drop {A = A} n [] ≡ []
drop-nil A zero = refl
drop-nil A (suc n) = refl

-- Walking over the fields of a memory, one after the other.
drop-add {ℓ} : {A : Type ℓ} (m k : ℕ) (xs : List A) → drop (k + m) xs ≡ drop k (drop m xs)
drop-add zero k xs = rw add-zero
drop-add (suc m) k [] = rw (add-suc, drop-nil _ k)
drop-add (suc m) k (x ∷ xs) = rw add-suc (drop-add m k xs)

next_field :
    (ws xs ys : List ℕ) (m k : ℕ) → drop m ws ≡ xs ++ ys → length xs ≡ k → drop (k + m) ws ≡ ys
next_field ws xs ys m k e h =
    drop-add m k ws ∙ (ap (drop k) e ∙ subst (λ j. drop j (xs ++ ys) ≡ ys) h (drop-append xs ys))

this_field :
    (ws xs ys : List ℕ) (m k : ℕ) → drop m ws ≡ xs ++ ys → length xs ≡ k → field ws m k ≡ xs
this_field ws xs ys m k e h =
    ap (take k) e ∙ subst (λ j. take j (xs ++ ys) ≡ xs) h (take-append xs ys)

this_number :
    (ws ys : List ℕ) (n m k : ℕ)
    → drop m ws ≡ le_bytes k n ++ ys
    → n < 256 ^ k
    → of_le (field ws m k) ≡ n
this_number ws ys n m k e h =
    ap of_le (this_field ws (le_bytes k n) ys m k e (length-le_bytes k n)) ∙ of_le-le_bytes k n h

-- The memory of an entry with whatever follows it, bracketed to the right.
module _ (e : KeyEntry) (post : List ℕ) where
  abbrev pub from_reserved : List ℕ
  from_reserved = e.reserved ++ post

  abbrev pub from_fc_sysid : List ℕ
  from_fc_sysid = le_bytes 4 e.fc_sysid ++ from_reserved

  abbrev pub from_log_retention_days : List ℕ
  from_log_retention_days = e.log_retention_days ++ from_fc_sysid

  abbrev pub from_flags : List ℕ
  from_flags = le_bytes 4 e.flags ++ from_log_retention_days

  abbrev pub from_name : List ℕ
  from_name = e.name ++ from_flags

  abbrev pub from_count2 : List ℕ
  from_count2 = le_bytes 4 e.count2 ++ from_name

  abbrev pub from_count1 : List ℕ
  from_count1 = le_bytes 4 e.count1 ++ from_count2

  abbrev pub from_connections : List ℕ
  from_connections = le_bytes 4 e.connections ++ from_count1

  abbrev pub from_port1 : List ℕ
  from_port1 = le_bytes 4 e.port1 ++ from_connections

  abbrev pub from_secret_key : List ℕ
  from_secret_key = e.secret_key ++ from_port1

  abbrev pub from_timestamp : List ℕ
  from_timestamp = le_bytes 8 e.timestamp ++ from_secret_key

  abbrev pub from_magic : List ℕ
  from_magic = le_bytes 8 e.magic ++ from_timestamp

  pub memory_eq : write_entry e ++ post ≡ from_magic
  unfolding write_entry
  memory_eq = simp append_assoc

module _ (e : KeyEntry) (post ws : List ℕ) (v : IsEntry e) (memory : ws ≡ from_magic e post) where
  at_magic : drop 0 ws ≡ from_magic e post
  at_magic = memory

  at_timestamp : drop 8 ws ≡ from_timestamp e post
  at_timestamp = next_field ws _ _ 0 8 at_magic (length-le_bytes 8 e.magic)

  at_secret_key : drop 16 ws ≡ from_secret_key e post
  at_secret_key = next_field ws _ _ 8 8 at_timestamp (length-le_bytes 8 e.timestamp)

  at_port1 : drop 48 ws ≡ from_port1 e post
  at_port1 = next_field ws _ _ 16 32 at_secret_key v.secret_size

  at_connections : drop 52 ws ≡ from_connections e post
  at_connections = next_field ws _ _ 48 4 at_port1 (length-le_bytes 4 e.port1)

  at_count1 : drop 56 ws ≡ from_count1 e post
  at_count1 = next_field ws _ _ 52 4 at_connections (length-le_bytes 4 e.connections)

  at_count2 : drop 60 ws ≡ from_count2 e post
  at_count2 = next_field ws _ _ 56 4 at_count1 (length-le_bytes 4 e.count1)

  at_name : drop 64 ws ≡ from_name e post
  at_name = next_field ws _ _ 60 4 at_count2 (length-le_bytes 4 e.count2)

  at_flags : drop 96 ws ≡ from_flags e post
  at_flags = next_field ws _ _ 64 32 at_name v.name_size

  at_log_retention_days : drop 100 ws ≡ from_log_retention_days e post
  at_log_retention_days = next_field ws _ _ 96 4 at_flags (length-le_bytes 4 e.flags)

  at_fc_sysid : drop 104 ws ≡ from_fc_sysid e post
  at_fc_sysid = next_field ws _ _ 100 4 at_log_retention_days v.retention_size

  at_reserved : drop 108 ws ≡ from_reserved e post
  at_reserved = next_field ws _ _ 104 4 at_fc_sysid (length-le_bytes 4 e.fc_sysid)

  pub read_entry-write_entry : read_entry ws ≡ e
  unfolding read_entry
  read_entry-write_entry = λ i. record {
    magic = (this_number ws _ e.magic 0 8 at_magic v.magic_word) i;
    timestamp = (this_number ws _ e.timestamp 8 8 at_timestamp v.timestamp_word) i;
    secret_key = (this_field ws _ _ 16 32 at_secret_key v.secret_size) i;
    port1 = (this_number ws _ e.port1 48 4 at_port1 v.port1_word) i;
    connections = (this_number ws _ e.connections 52 4 at_connections v.connections_word) i;
    count1 = (this_number ws _ e.count1 56 4 at_count1 v.count1_word) i;
    count2 = (this_number ws _ e.count2 60 4 at_count2 v.count2_word) i;
    name = (this_field ws _ _ 64 32 at_name v.name_size) i;
    flags = (this_number ws _ e.flags 96 4 at_flags v.flags_word) i;
    log_retention_days = (this_field ws _ _ 100 4 at_log_retention_days v.retention_size) i;
    fc_sysid = (this_number ws _ e.fc_sysid 104 4 at_fc_sysid v.fc_sysid_word) i;
    reserved = (this_field ws _ _ 108 60 at_reserved v.reserved_size) i;
  }

pub length-write_entry : (e : KeyEntry) → IsEntry e → length (write_entry e) ≡ keyentry_size
unfolding write_entry
length-write_entry e v = simp (length-append, length-le_bytes) (omega arith)
