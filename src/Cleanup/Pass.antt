-- ===== src/Cleanup/Pass.antt =====
-- traverse_cb and log_cleanup_once of cleanup.cpp: which port pairs of keys.tdb are cleaned up. What a
-- float of days is as a time is the argument `retention_of`.
use udpproxy.Prelude.{
  ℕ, ◌^◌, ◌≡◌, refl, subst, inl, inr, Bool, ◌&&◌, Option, none, some, List, [], ◌∷◌, ◌++◌, ltb, leb,
  ◌==◌, if◌then◌else◌, Option-cases, length,
}
use mathlib.Core.List.{Memᴰ}
use udpproxy.Session.Names.{Tree}
use udpproxy.Database.Tdb.{Tdb, Bytes}
use udpproxy.Database.Bytes.{of_le}
use udpproxy.Database.KeyEntry.{KeyEntry, load_entry, keyentry_min_size, key_magic}
use udpproxy.Cleanup.{Sort, Evicted, cleanup_for_port2}

-- The tests on one record: port2, a positive int, and its entry.
pub cleaned_entry : Bytes → Bytes → Option (ℕ × KeyEntry)
cleaned_entry key bytes =
    let port2 = of_le key in
    let k = load_entry bytes in
    if length key == 4 && leb keyentry_min_size (length bytes)
    then (if (ltb 0 port2 && ltb port2 (2 ^ 31)) && k.magic == key_magic
        then some (port2, k)
        else none)
    else none

module _ (sort : Sort) (retention_of : List ℕ → Option ℕ) (now : ℕ) (trees : ℕ → Tree) where
  -- What one record makes the pass do: a port pair and the outcome of its cleanup.
  pub traverse_cb : Bytes × Bytes → List (ℕ × Evicted)
  traverse_cb (key, bytes) = elim (cleaned_entry key bytes) [
    | none ↦ []
    | some (port2, k) ↦
        (port2, cleanup_for_port2 sort (retention_of k.log_retention_days) now (trees port2)) ∷ []
  ]

  pub traverse : List (Bytes × Bytes) → List (ℕ × Evicted)
  traverse [] = []
  traverse (r ∷ rs) = traverse_cb r ++ traverse rs

  -- `opens` says whether db_open succeeds.
  pub log_cleanup_once : (tdb : Tdb) → Bool → tdb.Db → List (ℕ × Evicted)
  log_cleanup_once tdb opens db = if opens then traverse (tdb.all db) else []

  -- The pass cleans up every port pair whose record passes the tests.
  mem-traverse :
      (r : Bytes × Bytes) (rs : List (Bytes × Bytes)) (port2 : ℕ) (k : KeyEntry)
      → Memᴰ r rs
      → cleaned_entry r.0 r.1 ≡ some (port2, k)
      → Memᴰ
          (port2, cleanup_for_port2 sort (retention_of k.log_retention_days) now (trees port2))
          (traverse rs)
  unfolding traverse traverse_cb
  mem-traverse r [] port2 k m e = elim m [ ]
  mem-traverse r (q ∷ rs) port2 k (Memᴰ.head h) e =
      subst
        (λ x.
          Memᴰ (port2, cleanup_for_port2 sort (retention_of k.log_retention_days) now (trees port2))
            (traverse (x ∷ rs)))
        h (rw (e, traverse_cb) (Memᴰ.head refl))
  mem-traverse r (q ∷ rs) port2 k (Memᴰ.tail m) e =
      let later = mem-traverse r rs port2 k m e in
      elim (Option-cases (cleaned_entry q.0 q.1)) [
        | inl f ↦ rw (f, traverse_cb) later
        | inr (v, f) ↦ rw (f, traverse_cb) (Memᴰ.tail later)
      ]
