-- ===== src/Drops/Done.antt =====
-- What a drop request brings about.
use udpproxy.Prelude.{
  ℕ, zero, suc, ◌^◌, ◌<◌, ◌≡◌, refl, sym, ap, ◌∙◌, subst, inl, inr, Bool, true, false, ◌&&◌, none,
  some, List, [], ◌∷◌, arith, Bool-cases, Option-cases, if◌then◌else◌,
}
use mathlib.Core.List.{Memᴰ}
use udpproxy.Database.Tdb.{Tdb, Bytes, Deletes}
use udpproxy.Database.Connections.{make_key, matches_port2, after_delete, conn_delete}
use udpproxy.Database.Connections.Laws.{
  make_key-index, make_key-matches, Bytes-discrete, fetch-after_delete_self, fetch-after_delete_ne,
}
use udpproxy.Slots.{Slot, Table, close_slot}
use udpproxy.Slots.Admission.{update, count_dropped, slot_used, drop_one, process_drops}
use udpproxy.Drops.{wants_drop, collect_drops, delete_drops, process_requests}

mem-collect_drops :
    (port2 i : ℕ) (bytes : Bytes) (records : List (Bytes × Bytes))
    → port2 < 256 ^ 4
    → i < 256 ^ 4
    → wants_drop bytes ≡ true
    → Memᴰ (make_key port2 i, bytes) records
    → Memᴰ i (collect_drops port2 records)
unfolding collect_drops
mem-collect_drops port2 i bytes [] hp hi w m = elim m [ ]
mem-collect_drops port2 i bytes ((key, value) ∷ rest) hp hi w (Memᴰ.head e) =
    rw
      (
        ← ap (λ (r : Bytes × Bytes). r.0) e,
        ← ap (λ (r : Bytes × Bytes). r.1) e,
        make_key-matches port2 i hp hi,
        w,
        make_key-index port2 i hp hi,
      )
      (Memᴰ.head refl)
mem-collect_drops port2 i bytes ((key, value) ∷ rest) hp hi w (Memᴰ.tail m) =
    elim (Bool-cases (matches_port2 port2 key && wants_drop value)) [
      | inl e ↦ rw e (Memᴰ.tail (mem-collect_drops port2 i bytes rest hp hi w m))
      | inr e ↦ rw e (mem-collect_drops port2 i bytes rest hp hi w m)
    ]

slot_used-update_self : (i : ℕ) (ss : List Slot) → slot_used i (update i close_slot ss) ≡ false
unfolding slot_used update close_slot
slot_used-update_self i [] = refl
slot_used-update_self zero (s ∷ ss) = refl
slot_used-update_self (suc i) (s ∷ ss) = slot_used-update_self i ss

-- Closing another slot leaves an unused slot unused.
slot_used-update :
    (i j : ℕ) (ss : List Slot)
    → slot_used i ss ≡ false
    → slot_used i (update j close_slot ss) ≡ false
unfolding slot_used update close_slot
slot_used-update i j [] h = h
slot_used-update zero zero (s ∷ ss) h = refl
slot_used-update zero (suc j) (s ∷ ss) h = h
slot_used-update (suc i) zero (s ∷ ss) h = h
slot_used-update (suc i) (suc j) (s ∷ ss) h = slot_used-update i j ss h

drop_one-unused :
    (i j : ℕ) (r : Bool × Table)
    → slot_used i r.1.slots ≡ false
    → slot_used i (drop_one j r).1.slots ≡ false
unfolding drop_one count_dropped
drop_one-unused i zero r h = h
drop_one-unused i (suc j) r h = let u = slot_used-update i j r.1.slots h in ground (arith, h, u)

drop_one_self :
    (i : ℕ) (r : Bool × Table) → i < 100 → slot_used i (drop_one (suc i) r).1.slots ≡ false
unfolding drop_one count_dropped
drop_one_self i r h = let u = slot_used-update_self i r.1.slots in ground (arith, h, u)

process_drops-unused :
    (i : ℕ) (is : List ℕ) (r : Bool × Table)
    → slot_used i r.1.slots ≡ false
    → slot_used i (process_drops is r).1.slots ≡ false
unfolding process_drops
process_drops-unused i [] r h = h
process_drops-unused i (j ∷ is) r h =
    process_drops-unused i is (drop_one j r) (drop_one-unused i j r h)

process_drops-mem :
    (i : ℕ) (is : List ℕ) (r : Bool × Table)
    → i < 100
    → Memᴰ (suc i) is
    → slot_used i (process_drops is r).1.slots ≡ false
unfolding process_drops
process_drops-mem i [] r h m = elim m [ ]
process_drops-mem i (j ∷ is) r h (Memᴰ.head e) =
    process_drops-unused i is (drop_one j r)
      (subst (λ k. slot_used i (drop_one k r).1.slots ≡ false) e (drop_one_self i r h))
process_drops-mem i (j ∷ is) r h (Memᴰ.tail m) = process_drops-mem i is (drop_one j r) h m

module _ (tdb : Tdb) (deletes : Deletes tdb) where
  open tdb use {Db, fetch, delete, all, all-fetch}

  conn_delete-after :
      (db : Db) (port2 i : ℕ)
      → after_delete tdb db (make_key port2 i) ≡ (conn_delete tdb db port2 i).0
  unfolding conn_delete
  conn_delete-after db port2 i = elim (Option-cases (delete db (make_key port2 i))) [
    | inl e ↦ rw (e, after_delete, conn_delete) refl
    | inr (db', e) ↦ rw (e, after_delete, conn_delete) refl
  ]

  delete_drops-none :
      (port2 : ℕ) (is : List ℕ) (db : Db) (k : Bytes)
      → fetch db k ≡ none
      → fetch (delete_drops tdb port2 is db) k ≡ none
  unfolding delete_drops
  delete_drops-none port2 [] db k h = h
  delete_drops-none port2 (i ∷ is) db k h =
      delete_drops-none port2 is (conn_delete tdb db port2 i).0 k (
        subst (λ d. fetch d k ≡ none) (conn_delete-after db port2 i)
          (elim (Bytes-discrete (make_key port2 i) k) [
            | yes e ↦
                subst (λ j. fetch (after_delete tdb db (make_key port2 i)) j ≡ none) e
                  (fetch-after_delete_self tdb deletes db (make_key port2 i))
            | no ne ↦ fetch-after_delete_ne tdb deletes db (make_key port2 i) k ne ∙ h
          ]))

  delete_drops-mem :
      (port2 i : ℕ) (is : List ℕ) (db : Db)
      → Memᴰ i is
      → fetch (delete_drops tdb port2 is db) (make_key port2 i) ≡ none
  unfolding delete_drops
  delete_drops-mem port2 i [] db m = elim m [ ]
  delete_drops-mem port2 i (j ∷ is) db (Memᴰ.head e) =
      delete_drops-none port2 is (conn_delete tdb db port2 j).0 (make_key port2 i) (
        subst (λ d. fetch d (make_key port2 i) ≡ none) (conn_delete-after db port2 j)
          (subst (λ k. fetch (after_delete tdb db (make_key port2 k)) (make_key port2 i) ≡ none) e
            (fetch-after_delete_self tdb deletes db (make_key port2 i))))
  delete_drops-mem port2 i (j ∷ is) db (Memᴰ.tail m) =
      delete_drops-mem port2 i is (conn_delete tdb db port2 j).0 m

  -- Where the transaction starts, and deleting a record that is there succeeds: if the record of an
  -- engineer's slot of this port pair asks to be dropped, then after process_drops the slot is not
  -- used, whatever the other records ask, and the record is gone if the commit succeeds, and there as
  -- before if it fails.
  pub process_requests_done :
      (commits : Bool) (port2 k : ℕ) (db : Db) (t : Table) (bytes : Bytes)
      → port2 < 256 ^ 4
      → k < 100
      → fetch db (make_key port2 (suc k)) ≡ some bytes
      → wants_drop bytes ≡ true
      → let r = process_requests tdb true commits port2 db t in
        (fetch r.0 (make_key port2 (suc k)) ≡ (if commits then none else some bytes))
        × (slot_used k r.1.1.slots ≡ false)
  unfolding process_requests
  process_requests_done commits port2 k db t bytes hp hk found w =
      let is = collect_drops port2 (all db) in
      let m =
        mem-collect_drops port2 (suc k) bytes (all db) hp (omega (arith, hk)) w
          (all-fetch db (make_key port2 (suc k)) bytes found) in
      let there = λ (c : Bool).
        fetch (if c then delete_drops tdb port2 is db else db) (make_key port2 (suc k))
        ≡ (if c then none else some bytes) in
      (
        elim (Bool-cases commits) [
          | inl e ↦ subst there (sym e) (delete_drops-mem port2 (suc k) is db m)
          | inr e ↦ subst there (sym e) found
        ],
        process_drops-mem k is (false, t) hk m,
      )
