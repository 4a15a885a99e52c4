-- ===== src/Link/Send/Gate.antt =====
-- Nothing but HEARTBEAT goes to a support engineer before a signed packet has come from there.
use udpproxy.Prelude.{
  ℕ, ◌≡◌, ap, ◌∙◌, ◌⊎◌, inl, inr, Bool, true, false, ◌||◌, Option, none, List, [], ◌∷◌, arith, ◌==◌,
}
use udpproxy.Message.{Message, Dialect}
use udpproxy.Database.Tdb.{Tdb}
use udpproxy.Link.{Link, Wire, seen_signing}
use udpproxy.Link.Signing.Keeps.{update_signing_timestamp-link}
use udpproxy.Link.Receive.{has_key_id, Env, receive_message}
use udpproxy.Link.Receive.Wary.{put_signing-key}
use udpproxy.Link.Receive.Heard.{hears_good, Heard, receive_message-Heard}
use udpproxy.Link.Send.{
  dropped, strip, add, transmit, remember, stamped, Probe, send_open, send_message,
}

module _ (d : Dialect) (tdb : Tdb) (wire : Wire) where
  open tdb use {Db}
  open wire use {Parser, parse_char, finalize}

  -- What happens to one link, with what the system answers: bytes that arrive, and messages to send.
  pub data LinkEvent : Type 0 where
    arrive : Env → List ℕ → LinkEvent
    forward : Probe → ℕ → ℕ → Message → LinkEvent

  -- What an observer at the parser and at the socket notes.
  pub data Note : Type 0 where
    heard : Bool → Note
    sent : Message → List ℕ → Note

  pub record Session : Type 0 where
    pub db : Db
    pub parser : Parser
    pub link : Link

  pub after_event : LinkEvent → Session → Session
  after_event (arrive env bytes) s =
      let r = receive_message d tdb wire env s.db s.parser s.link bytes in
      record { db = r.db; parser = r.parser; link = r.link }
  after_event (forward probe now taken msg) s = record s {
    link = (send_message d wire probe now taken s.link msg).link;
  }

  pub note_of : LinkEvent → Session → Note
  note_of (arrive env bytes) s =
      heard (hears_good d tdb wire s.parser (record (s.link) { got_bad_signature = false }) bytes)
  note_of (forward probe now taken msg) s =
      sent msg (send_message d wire probe now taken s.link msg).bytes

  pub notes : List LinkEvent → Session → List Note
  notes [] s = []
  notes (e ∷ es) s = note_of e s ∷ notes es (after_event e s)

  -- Bytes go out for heartbeats, or after something good was heard.
  abbrev pub IsGated : Bool → List Note → Type 0
  IsGated good [] = Unit
  IsGated good (heard h ∷ ns) = IsGated (good || h) ns
  IsGated good (sent msg bytes ∷ ns) =
      ((good ≡ true) ⊎ ((msg.msgid == d.id_heartbeat) ≡ true) ⊎ (bytes ≡ [])) × IsGated good ns

  -- A peer that counts as known has been heard.
  abbrev IsHonest : Bool → Link → Type 0
  IsHonest good l = (l.got_signed_packet ≡ false) ⊎ (good ≡ true)

  stamped-link :
      (now : ℕ) (l : Link)
      → ((stamped d wire now l).0.key_id ≡ l.key_id)
        × ((stamped d wire now l).0.got_signed_packet ≡ l.got_signed_packet)
  unfolding stamped
  stamped-link now l = let u = update_signing_timestamp-link now l in ground (arith, u)

  transmit-link :
      (taken : ℕ) (r : Link × Option ℕ) (msg : Message)
      → let t = transmit d wire taken r msg in
        (t.link.key_id ≡ r.0.key_id) × (t.link.got_signed_packet ≡ r.0.got_signed_packet)
  unfolding transmit
  transmit-link taken r msg =
      let k = put_signing-key (finalize (seen_signing r.0) msg).0 r.0 in ground (arith, k)

  remember-link :
      (msg : Message) (l : Link)
      → ((remember d wire msg l).key_id ≡ l.key_id)
        × ((remember d wire msg l).got_signed_packet ≡ l.got_signed_packet)
  unfolding remember
  remember-link msg l = ground arith

  send_open-link :
      (now taken : ℕ) (l : Link) (msg : Message)
      → let r = send_open d wire now taken l msg in
        (r.link.key_id ≡ l.key_id) × (r.link.got_signed_packet ≡ l.got_signed_packet)
  unfolding send_open dropped
  send_open-link now taken l msg =
      let m = remember-link msg l in
      let s = stamped-link now (remember d wire msg l) in
      let t = transmit-link taken (stamped d wire now (remember d wire msg l)) (add d wire msg) in
      let t' = transmit-link taken (l, none) (strip d wire msg) in ground (arith, m, s, t, t')

  send_message-link :
      (probe : Probe) (now taken : ℕ) (l : Link) (msg : Message)
      → let r = send_message d wire probe now taken l msg in
        (r.link.key_id ≡ l.key_id) × (r.link.got_signed_packet ≡ l.got_signed_packet)
  unfolding send_message dropped
  send_message-link probe now taken l msg =
      let s = send_open-link now taken l msg in ground (arith, s)

  -- What send_message hands to the socket.
  send_message-bytes :
      (probe : Probe) (now taken : ℕ) (l : Link) (msg : Message)
      → has_key_id l.key_id ≡ true
      → l.got_signed_packet ≡ false
      → ((msg.msgid == d.id_heartbeat) ≡ true)
        ⊎ ((send_message d wire probe now taken l msg).bytes ≡ [])
  unfolding send_message send_open dropped
  send_message-bytes probe now taken l msg key quiet = ground arith

  IsHonest-after :
      (good news : Bool) (l after : Link)
      → IsHonest good l
      → Heard d tdb wire news l after
      → IsHonest (good || news) after
  IsHonest-after good news l after h h' = ground (arith, h, h')

  notes-IsGated_from :
      (events : List LinkEvent) (s : Session) (good : Bool)
      → has_key_id s.link.key_id ≡ true
      → IsHonest good s.link
      → IsGated good (notes events s)
  unfolding notes note_of after_event
  notes-IsGated_from [] s good key honest = tt
  notes-IsGated_from (arrive env bytes ∷ es) s good key honest =
      let r = receive_message d tdb wire env s.db s.parser s.link bytes in
      let h = receive_message-Heard d tdb wire env s.db s.parser s.link bytes in
      notes-IsGated_from es (record { db = r.db; parser = r.parser; link = r.link })
        (good
          || hears_good d tdb wire s.parser (record (s.link) { got_bad_signature = false }) bytes)
        (ap has_key_id h.0 ∙ key)
        (IsHonest-after good
          (hears_good d tdb wire s.parser (record (s.link) { got_bad_signature = false }) bytes)
          s.link r.link honest h)
  notes-IsGated_from (forward probe now taken msg ∷ es) s good key honest =
      let r = send_message d wire probe now taken s.link msg in
      let k = send_message-link probe now taken s.link msg in
      (
        elim honest [
          | inl quiet ↦ inr (send_message-bytes probe now taken s.link msg key quiet)
          | inr e ↦ inl e
        ],
        notes-IsGated_from es (record s { link = r.link }) good (ap has_key_id k.0 ∙ key)
            (elim honest [ inl quiet ↦ inl (k.1 ∙ quiet) | inr e ↦ inr e ]),
      )

  -- On a link that wants signatures and whose peer is not yet known, whatever arrives and whatever
  -- is to be sent, in every order: send_message hands bytes to the socket only for a HEARTBEAT, or
  -- after a call of receive_message whose first message to complete was signed, not refused by the
  -- library, and found a loaded key.
  pub notes-IsGated :
      (events : List LinkEvent) (s : Session)
      → has_key_id s.link.key_id ≡ true
      → s.link.got_signed_packet ≡ false
      → IsGated false (notes events s)
  notes-IsGated events s key quiet = notes-IsGated_from events s false key (inl quiet)
