-- ===== src/Link/Signing.antt =====
-- The signing key of a link: load_signing_key, update_signing_timestamp, save_signing_timestamp and
-- handle_setup_signing of mavlink.cpp, and MAVLink::init. `opens` says whether a transaction on
-- keys.tdb starts, and `allocates` whether malloc succeeds in db_save_key.
pub mod Keeps
pub mod Stored
pub mod Stale
use udpproxy.Prelude.{
  ℕ, ◌+◌, ◌-◌, ◌*◌, ◌%◌, ◌^◌, min, Bool, true, false, not, ◌&&◌, Option, none, some, List, [], ◌∷◌,
  map, ltb, ◌==◌, if◌then◌else◌,
}
use udpproxy.Message.{SetupSigning}
use udpproxy.Database.Tdb.{Tdb}
use udpproxy.Database.KeyEntry.{KeyEntry}
use udpproxy.Database.Keys.{db_load_key, db_save_key}
use udpproxy.Link.{Wire, Link, no_signing}
use udpproxy.Link.Clock.{now_mavlink, wall_timestamp}

pub all_zero : List ℕ → Bool
all_zero [] = true
all_zero (b ∷ bs) = let rest = all_zero bs in if b == 0 then rest else false

-- The later of the saved time with 15 s more, and now.
pub start_timestamp : ℕ → ℕ → ℕ
start_timestamp saved now =
    let loaded = (saved + 15 * 100 * 1000) % 2 ^ 64 in
    if ltb loaded (now_mavlink now) then now_mavlink now else loaded

-- load_signing_key with the entry that load_key finds.
pub use_key : ℕ → Link → KeyEntry → Link
use_key now l ke = record l {
  key_loaded = true;
  signing = record (l.signing) {
    secret_key = ke.secret_key;
    link_id = l.chan % 256;
    timestamp = start_timestamp ke.timestamp now;
    sign_outgoing = true;
    has_callback = true;
  };
  attached = not (ke.timestamp == 0 && all_zero ke.secret_key);
}

-- One channel in the loop of update_signing_timestamp.
pub raise_timestamp : ℕ → Link → Link
raise_timestamp stamp l =
    if l.attached && ltb l.signing.timestamp stamp
    then record l { signing = record (l.signing) { timestamp = stamp } }
    else l

-- Its guard, and what it does to its own link. `some stamp` where it goes on: all links are raised to
-- the stamp, and a child process saves it.
unfoldable pub update_signing_timestamp : ℕ → Link → Link × Option ℕ
update_signing_timestamp now l = if ltb now (l.last_signing_save + 10_000_000) then (l, none) else (
  raise_timestamp (wall_timestamp now) (record l { last_signing_save = now }),
  some (wall_timestamp now),
)

unfoldable pub raise_all : Option ℕ → List Link → List Link
raise_all none ls = ls
raise_all (some stamp) ls = map (raise_timestamp stamp) ls

-- The loop of save_signing_timestamp: the timestamp of the entry.
pub saved_timestamp : ℕ → ℕ → List Link → ℕ
saved_timestamp now best [] = best
saved_timestamp now best (l ∷ ls) =
    let v = min l.signing.timestamp (now_mavlink now) in
    saved_timestamp now (if l.attached && ltb best v then v else best) ls

-- What MAVLink::init resets before it looks at signing_required. `ws` and `attached` stay.
pub reset : ℕ → ℕ → Bool → Bool → Option ℕ → Link → Link
reset fd chan allow_websocket is_tcp key_id l = record l {
  fd = fd;
  chan = chan;
  key_id = key_id;
  is_tcp = is_tcp;
  got_signed_packet = false;
  key_loaded = false;
  last_signing_save = 0;
  last_signing_warning = 0;
  last_sysid = 0;
  last_compid = 0;
  bad_sig_count = 0;
  allow_websocket = allow_websocket;
  got_bad_signature = false;
  sendto = none;
  signing = no_signing;
}

-- db_load_key(tdb, key_id, key), where the key_id -1 is 2^32 - 1 as an int's bit pattern.
abbrev pub key_of : Option ℕ → ℕ
key_of none = 2 ^ 32 - 1
key_of (some id) = id

module _ (tdb : Tdb) where
  open tdb use {Db}

  pub load_signing_key : Db → ℕ → Link → Link
  load_signing_key db now l = elim (db_load_key tdb db (key_of l.key_id)) [
    | none ↦ l
    | some ke ↦ use_key now l ke
  ]

  -- MAVLink::init, with the table of streams in the parser. `some stamp` as in
  -- update_signing_timestamp.
  unfoldable pub init :
      (wire : Wire)
      → Db
      → ℕ
      → ℕ
      → ℕ
      → Bool
      → Bool
      → Bool
      → Option ℕ
      → wire.Parser × Link
      → wire.Parser × (Link × Option ℕ)
  init wire db now fd chan signing_required allow_websocket is_tcp key_id (p, l) =
      let fresh = reset fd chan allow_websocket is_tcp key_id l in
      if signing_required
      then (wire.clear_streams p, update_signing_timestamp now (load_signing_key db now fresh))
      else (wire.clear_streams p, (fresh, none))

  -- db_save_key and the commit: the database as it was where a step fails.
  pub saved : Db → Option Db → Db
  saved db none = db
  saved db (some db') = db'

  unfoldable pub save_signing_timestamp : Db → Bool → Bool → ℕ → Option ℕ → List Link → Db
  unfolding saved
  save_signing_timestamp db opens allocates now key_id ls =
      if opens
      then elim (db_load_key tdb db (key_of key_id)) [
        | none ↦ db
        | some ke ↦
            let stamp = saved_timestamp now ke.timestamp ls in
            if ltb ke.timestamp stamp
            then saved db
                (db_save_key tdb db allocates (key_of key_id) (record ke { timestamp = stamp }))
            else db
      ]
      else db

  unfoldable pub handle_setup_signing : Db → Bool → Bool → ℕ → SetupSigning → Link → Db × Link
  unfolding saved
  handle_setup_signing db opens allocates now packet l =
      if opens
      then elim (db_load_key tdb db (key_of l.key_id)) [
        | none ↦ (db, l)
        | some ke ↦
            let db' = saved db (
              db_save_key tdb db allocates (key_of l.key_id) (record ke {
                timestamp = packet.initial_timestamp;
                secret_key = packet.secret_key;
              })) in
            (db', load_signing_key db' now (record l { got_signed_packet = false }))
      ]
      else (db, l)
