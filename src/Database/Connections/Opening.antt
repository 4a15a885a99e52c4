-- ===== src/Database/Connections/Opening.antt =====
-- Opening connections.tdb, and what is done to it as a whole: conn_db_open with its retries,
-- conn_db_open_transaction, conn_remove_port2 and conn_recreate_empty of conntdb.cpp.
use udpproxy.Prelude.{
  ℕ, zero, suc, ◌<◌, ◌≡◌, refl, ◌≢◌, Bool, true, false, ◌&&◌, List, [], ◌∷◌, ◌++◌, arith,
  if◌then◌else◌, length, All,
}
use udpproxy.Database.Tdb.{Tdb}
use udpproxy.Database.Connections.{conn_delete_for_port2}

-- One tdb_open: it succeeds, fails with EBUSY, or fails otherwise.
pub data OpenTry : Type 0 where
  opened busy refused : OpenTry

-- The number of entries of `backoffs`.
abbrev pub open_tries : ℕ
open_tries = 5

-- The loop with some tries left; without an answer there is no file.
open_within : ℕ → List OpenTry → Bool
open_within zero ts = false
open_within (suc n) [] = false
open_within (suc n) (opened ∷ ts) = true
open_within (suc n) (busy ∷ ts) = open_within n ts
open_within (suc n) (refused ∷ ts) = false

-- Whether the database is opened.
pub conn_db_open : List OpenTry → Bool
unfolding open_within
conn_db_open ts = open_within open_tries ts

-- `starts`: what tdb_transaction_start answers.
pub conn_db_open_transaction : List OpenTry → Bool → Bool
conn_db_open_transaction ts starts = conn_db_open ts && starts

module _ (tdb : Tdb) where
  open tdb use {Db}

  pub conn_remove_port2 : List OpenTry → Bool → ℕ → Db → Db
  conn_remove_port2 ts starts port2 db =
      if conn_db_open_transaction ts starts then (conn_delete_for_port2 tdb db port2).0 else db

  -- `unlinked`: the file is gone, also where there was none; `empty` is what tdb_open then makes.
  pub conn_recreate_empty : Bool → Db → Db → Db
  conn_recreate_empty unlinked empty db = if unlinked then empty else db

open_within_busy :
    (n : ℕ) (front ts : List OpenTry)
    → All (λ t. t ≢ refused) front
    → length front < n
    → open_within n (front ++ opened ∷ ts) ≡ true
unfolding open_within
open_within_busy zero front ts all h = absurd (omega (arith, h))
open_within_busy (suc n) [] ts all h = refl
open_within_busy (suc n) (opened ∷ front) ts all h = refl
open_within_busy (suc n) (busy ∷ front) ts all h =
    open_within_busy n front ts all.1 (omega (arith, h))
open_within_busy (suc n) (refused ∷ front) ts all h = absurd (all.0 refl)

-- A collision of at most four tries is waited out.
pub conn_db_open_busy :
    (front ts : List OpenTry)
    → All (λ t. t ≢ refused) front
    → length front < open_tries
    → conn_db_open (front ++ opened ∷ ts) ≡ true
unfolding conn_db_open
conn_db_open_busy front ts all h = open_within_busy open_tries front ts all h
