-- ===== src/Link/Signing/Stale.antt =====
-- A WebSocket that outlives its connection in the slot's link.
use udpproxy.Prelude.{ℕ, ◌≡◌, refl, Bool, Option, some, arith}
use udpproxy.Slots.{Address}
use udpproxy.Database.Tdb.{Tdb}
use udpproxy.Link.{Link, Wire, by_ws, by_pointer, send_data, set_ws, set_sendto}
use udpproxy.Link.Signing.{
  raise_timestamp, update_signing_timestamp, use_key, reset, load_signing_key, init,
}

update_signing_timestamp-ws : (now : ℕ) (l : Link) → (update_signing_timestamp now l).0.ws ≡ l.ws
unfolding update_signing_timestamp raise_timestamp
update_signing_timestamp-ws now l = ground arith

reset-ws :
    (fd chan : ℕ) (allow_websocket is_tcp : Bool) (key_id : Option ℕ) (l : Link)
    → (reset fd chan allow_websocket is_tcp key_id l).ws ≡ l.ws
unfolding reset
reset-ws fd chan allow_websocket is_tcp key_id l = refl

by_stale_ws :
    (ws : ℕ) (l : Link)
    → l.ws ≡ some ws
    → (a : Address) → (send_data l ≡ by_ws ws) × (send_data (set_sendto a l) ≡ by_ws ws)
unfolding send_data by_pointer set_sendto
by_stale_ws ws l e a = (rw (send_data, by_pointer, e) refl, rw (send_data, by_pointer, e) refl)

module _ (tdb : Tdb) (wire : Wire) where
  open tdb use {Db}
  open wire use {Parser}

  load_signing_key-ws : (db : Db) (now : ℕ) (l : Link) → (load_signing_key tdb db now l).ws ≡ l.ws
  unfolding load_signing_key use_key
  load_signing_key-ws db now l = ground arith

  init-ws :
      (db : Db) (now fd chan : ℕ) (signing_required allow_websocket is_tcp : Bool)
      (key_id : Option ℕ) (p : Parser) (l : Link)
      → (init tdb wire db now fd chan signing_required allow_websocket is_tcp key_id (p, l)).1.0.ws
        ≡ l.ws
  unfolding init
  init-ws db now fd chan signing_required allow_websocket is_tcp key_id p l =
      let fresh = reset fd chan allow_websocket is_tcp key_id l in
      let r = reset-ws fd chan allow_websocket is_tcp key_id l in
      let k = load_signing_key-ws db now fresh in
      let u = update_signing_timestamp-ws now (load_signing_key tdb db now fresh) in
      ground (arith, r, k, u)

  -- Once a link had a WebSocket, a later connection that takes the link over with MAVLink::init, of
  -- whatever transport and with whatever key, still sends through that WebSocket, also after
  -- set_sendto.
  pub send_data-init :
      (db : Db) (now fd chan : ℕ) (signing_required allow_websocket is_tcp : Bool)
      (key_id : Option ℕ) (p : Parser) (l : Link) (ws : ℕ) (a : Address)
      → let later =
          (init tdb wire db now fd chan signing_required allow_websocket is_tcp key_id
            (p, set_ws ws l)).1.0 in
        (send_data later ≡ by_ws ws) × (send_data (set_sendto a later) ≡ by_ws ws)
  unfolding set_ws
  send_data-init db now fd chan signing_required allow_websocket is_tcp key_id p l ws a =
      by_stale_ws ws
        (init tdb wire db now fd chan signing_required allow_websocket is_tcp key_id
          (p, set_ws ws l)).1.0
        (init-ws db now fd chan signing_required allow_websocket is_tcp key_id p (set_ws ws l)) a
