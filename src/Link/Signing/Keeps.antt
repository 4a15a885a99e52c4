-- ===== src/Link/Signing/Keeps.antt =====
-- What the operations on the signing key leave of a link.
use udpproxy.Prelude.{ℕ, ◌≡◌, inl, inr, Bool, false, arith, Option-cases}
use udpproxy.Message.{SetupSigning}
use udpproxy.Database.Tdb.{Tdb}
use udpproxy.Link.{Link}
use udpproxy.Link.Signing.{
  raise_timestamp, update_signing_timestamp, use_key, load_signing_key, handle_setup_signing,
  key_of, saved,
}
use udpproxy.Database.Keys.{db_load_key, db_save_key}

pub update_signing_timestamp-link :
    (now : ℕ) (l : Link)
    → let r = (update_signing_timestamp now l).0 in
      (r.key_id ≡ l.key_id) × (r.got_signed_packet ≡ l.got_signed_packet)
unfolding update_signing_timestamp raise_timestamp
update_signing_timestamp-link now l = ground arith

pub raise_timestamp-key_id : (stamp : ℕ) (l : Link) → (raise_timestamp stamp l).key_id ≡ l.key_id
unfolding raise_timestamp
raise_timestamp-key_id stamp l = ground arith

module _ (tdb : Tdb) where
  open tdb use {Db}

  pub load_signing_key-link :
      (db : Db) (now : ℕ) (l : Link)
      → let r = load_signing_key tdb db now l in
        (r.key_id ≡ l.key_id) × (r.got_signed_packet ≡ l.got_signed_packet)
  unfolding load_signing_key use_key
  load_signing_key-link db now l = ground arith

  pub handle_setup_signing-key_id :
      (db : Db) (opens allocates : Bool) (now : ℕ) (packet : SetupSigning) (l : Link)
      → (handle_setup_signing tdb db opens allocates now packet l).1.key_id ≡ l.key_id
  unfolding handle_setup_signing
  handle_setup_signing-key_id db opens allocates now packet l =
      elim (Option-cases (db_load_key tdb db (key_of l.key_id))) [
        | inl e ↦ ground (arith, e)
        | inr (ke, e) ↦
            let db' = saved tdb db (
              db_save_key tdb db allocates (key_of l.key_id) (record ke {
                timestamp = packet.initial_timestamp;
                secret_key = packet.secret_key;
              })) in
            let k = load_signing_key-link db' now (record l { got_signed_packet = false }) in
            ground (arith, e, k)
      ]
