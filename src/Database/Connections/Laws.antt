-- ===== src/Database/Connections/Laws.antt =====
-- Which records conn_delete_for_port2 removes.
use native.Mathlib.Decide.{ℕ_discrete}
use mathlib.Core.List.{Memᴰ}
use udpproxy.Prelude.{
  ℕ, ◌^◌, ◌<◌, ◌≡◌, refl, sym, ap, ◌∙◌, subst, ◌≢◌, inl, inr, true, none, List, [], ◌∷◌, arith,
  ==_refl, Bool-cases, Option-cases, length, All, All-imp,
}
use udpproxy.Database.Tdb.{Tdb, Bytes, Deletes}
use udpproxy.Database.Bytes.{le_bytes, of_le, field}
use udpproxy.Database.Connections.{
  make_key, matches_port2, collect_port2, after_delete, delete_keys, conn_delete_for_port2,
}

pub Bytes-discrete : Discrete Bytes
Bytes-discrete = hlevel ℕ_discrete

abbrev IsWord : ℕ → Type 0
IsWord n = n < 256 ^ 4

make_key-port2 : (port2 i : ℕ) → IsWord port2 → of_le (field (make_key port2 i) 0 4) ≡ port2
unfolding make_key le_bytes of_le
make_key-port2 port2 i hp = omega arith

module _ (port2 i : ℕ) (hp : IsWord port2) (hi : IsWord i) where
  pub make_key-index : of_le (field (make_key port2 i) 4 4) ≡ i
  unfolding make_key le_bytes of_le
  make_key-index = omega arith

  length-make_key : length (make_key port2 i) ≡ 8
  unfolding make_key le_bytes
  length-make_key = refl

  pub make_key-matches : matches_port2 port2 (make_key port2 i) ≡ true
  unfolding matches_port2
  make_key-matches = rw (length-make_key, make_key-port2 port2 i hp) (==_refl port2)

-- A key of this port pair that is in the database is among the matches.
mem-collect_port2 :
    (port2 i : ℕ) (value : Bytes) (records : List (Bytes × Bytes))
    → IsWord port2
    → IsWord i
    → Memᴰ (make_key port2 i, value) records
    → Memᴰ (make_key port2 i) (collect_port2 port2 records)
unfolding collect_port2
mem-collect_port2 port2 i value [] hp hi m = elim m [ ]
mem-collect_port2 port2 i value ((key, v) ∷ rest) hp hi (Memᴰ.head e) =
    rw
      (
        ← ap (λ (r : Bytes × Bytes). r.0) e,
        make_key-matches port2 i hp hi,
        make_key-port2 port2 i hp,
        make_key-index port2 i hp hi,
      )
      (Memᴰ.head refl)
mem-collect_port2 port2 i value ((key, v) ∷ rest) hp hi (Memᴰ.tail m) =
    elim (Bool-cases (matches_port2 port2 key)) [
      | inl e ↦ rw e (Memᴰ.tail (mem-collect_port2 port2 i value rest hp hi m))
      | inr e ↦ rw e (mem-collect_port2 port2 i value rest hp hi m)
    ]

matched : (port2 : ℕ) (key : Bytes) → matches_port2 port2 key ≡ true → of_le (field key 0 4) ≡ port2
unfolding matches_port2
matched port2 key e = ground arith

-- Every match is the key of a slot of this port pair.
collect_port2-port2 :
    (port2 : ℕ) (records : List (Bytes × Bytes))
    → IsWord port2
    → All (λ k. of_le (field k 0 4) ≡ port2) (collect_port2 port2 records)
unfolding collect_port2
collect_port2-port2 port2 [] hp = tt
collect_port2-port2 port2 ((key, v) ∷ rest) hp = elim (Bool-cases (matches_port2 port2 key)) [
  | inl e ↦
      let same = matched port2 key e in
      rw e (
        make_key-port2 (of_le (field key 0 4)) _ (subst IsWord (sym same) hp) ∙ same,
        collect_port2-port2 port2 rest hp,
      )
  | inr e ↦ rw e (collect_port2-port2 port2 rest hp)
]

module _ (tdb : Tdb) (deletes : Deletes tdb) where
  open tdb use {Db, fetch, delete, all, fetch-delete_self, fetch-delete_ne, all-fetch}

  pub fetch-after_delete_self : (db : Db) (key : Bytes) → fetch (after_delete tdb db key) key ≡ none
  fetch-after_delete_self db key = elim (Option-cases (delete db key)) [
    | inl e ↦
        rw (e, after_delete)
          (elim (Option-cases (fetch db key)) [
            | inl f ↦ f
            | inr (v, f) ↦ let works = deletes db key v f in absurd (ground (arith, works, e))
          ])
    | inr (db', e) ↦ rw (e, after_delete) (fetch-delete_self db db' key e)
  ]

  pub fetch-after_delete_ne :
      (db : Db) (key j : Bytes) → key ≢ j → fetch (after_delete tdb db key) j ≡ fetch db j
  fetch-after_delete_ne db key j ne = elim (Option-cases (delete db key)) [
    | inl e ↦ rw (e, after_delete)
    | inr (db', e) ↦ rw (e, after_delete) (fetch-delete_ne db db' key j e ne)
  ]

  delete_keys-none :
      (db : Db) (keys : List Bytes) (n : ℕ) (j : Bytes)
      → fetch db j ≡ none
      → fetch (delete_keys tdb db keys n).0 j ≡ none
  unfolding delete_keys
  delete_keys-none db [] n j h = h
  delete_keys-none db (key ∷ keys) n j h =
      delete_keys-none (after_delete tdb db key) keys _ j (elim (Bytes-discrete key j) [
        | yes e ↦
            subst (λ k. fetch (after_delete tdb db key) k ≡ none) e (fetch-after_delete_self db key)
        | no ne ↦ fetch-after_delete_ne db key j ne ∙ h
      ])

  delete_keys-mem :
      (db : Db) (keys : List Bytes) (n : ℕ) (j : Bytes)
      → Memᴰ j keys
      → fetch (delete_keys tdb db keys n).0 j ≡ none
  unfolding delete_keys
  delete_keys-mem db [] n j m = elim m [ ]
  delete_keys-mem db (key ∷ keys) n j (Memᴰ.head e) = delete_keys-none _ keys _ j (
      subst (λ k. fetch (after_delete tdb db key) k ≡ none) (sym e)
        (fetch-after_delete_self db key))
  delete_keys-mem db (key ∷ keys) n j (Memᴰ.tail m) =
      delete_keys-mem (after_delete tdb db key) keys _ j m

  delete_keys-keeps :
      (db : Db) (keys : List Bytes) (n : ℕ) (j : Bytes)
      → All (λ k. k ≢ j) keys
      → fetch (delete_keys tdb db keys n).0 j ≡ fetch db j
  unfolding delete_keys
  delete_keys-keeps db [] n j h = refl
  delete_keys-keeps db (key ∷ keys) n j h =
      delete_keys-keeps (after_delete tdb db key) keys _ j h.1 ∙ fetch-after_delete_ne db key j h.0

  module _ (db : Db) (port2 : ℕ) (hp : IsWord port2) where
    -- Where deleting a record that is there succeeds: after conn_delete_for_port2 no slot of the port
    -- pair has a record, whatever its number.
    pub conn_delete_for_port2_removes :
        (i : ℕ) → IsWord i → fetch (conn_delete_for_port2 tdb db port2).0 (make_key port2 i) ≡ none
    unfolding conn_delete_for_port2
    conn_delete_for_port2_removes i hi = elim (Option-cases (fetch db (make_key port2 i))) [
      | inl e ↦ delete_keys-none db _ 0 _ e
      | inr (v, e) ↦
          delete_keys-mem db _ 0 _ (mem-collect_port2 port2 i v (all db) hp hi (all-fetch db _ v e))
    ]

    -- It leaves the records of every other port pair as they were.
    pub conn_delete_for_port2_keeps :
        (other i : ℕ)
        → IsWord other
        → IsWord i
        → port2 ≢ other
        → fetch (conn_delete_for_port2 tdb db port2).0 (make_key other i)
          ≡ fetch db (make_key other i)
    unfolding conn_delete_for_port2
    conn_delete_for_port2_keeps other i ho hi ne = delete_keys-keeps db _ 0 _ (
        All-imp _ _ _
          (λ k e same.
            ne (sym e ∙ (ap (λ (b : Bytes). of_le (field b 0 4)) same ∙ make_key-port2 other i ho)))
          (collect_port2-port2 port2 (all db) hp))
