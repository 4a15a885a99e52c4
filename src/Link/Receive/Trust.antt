-- ===== src/Link/Receive/Trust.antt =====
-- Which messages receive_message lets through.
use udpproxy.Prelude.{
  ℕ, ◌≡◌, refl, sym, ap, ◌∙◌, subst, ◌≢◌, ◌⊎◌, inl, inr, Bool, true, false, not, ◌&&◌, Option, none,
  some, List, [], ◌∷◌, arith, ◌==◌, Bool-cases, Option-cases,
}
use udpproxy.Message.{Message, Dialect}
use udpproxy.Database.Tdb.{Tdb}
use udpproxy.Link.Signing.Keeps.{handle_setup_signing-key_id}
use udpproxy.Link.{Link, SigningState, Parsed, Wire, seen_signing, put_signing}
use udpproxy.Link.Receive.Wary.{put_signing-key, note_asked-key, warn-link, refuse-link}
use udpproxy.Link.Receive.{
  need_to_use, need_to_setup, has_key_id, note_asked, is_signed, Judged, Env, judge, parse_bytes,
  receive_message, judged, failed, signed, trust, distrust,
}

abbrev or_message : Message → Option Message → Message
or_message m none = m
or_message m (some n) = n

module _ (d : Dialect) (tdb : Tdb) (wire : Wire) where
  open tdb use {Db}
  open wire use {Parser, parse_char}

  -- The key is loaded, the message carries a signature that the library did not refuse, and it is not
  -- SETUP_SIGNING; the link then knows its peer.
  abbrev pub IsTrusted : Link → Message → Link → Type 0
  IsTrusted l msg after =
      (l.key_loaded ≡ true)
      × (is_signed wire msg ≡ true)
      × ((msg.msgid == d.id_setup_signing) ≡ false)
      × (after.got_bad_signature ≡ false)
      × (after.got_signed_packet ≡ true)

  judge-IsTrusted :
      (env : Env) (db : Db) (l : Link) (msg : Message)
      → has_key_id l.key_id ≡ true
      → (judge d tdb wire env db l msg).pass ≡ true
      → IsTrusted l msg (judge d tdb wire env db l msg).link
  unfolding judge failed signed trust
  judge-IsTrusted env db l msg key h = ground arith

  -- Judging a message leaves the key's number, and makes the peer known only for a good signature.
  pub judge-link :
      (env : Env) (db : Db) (l : Link) (msg : Message)
      → let after = (judge d tdb wire env db l msg).link in
        (after.key_id ≡ l.key_id)
        × ((after.got_signed_packet ≡ false)
            ⊎ ((l.got_signed_packet ≡ true)
                ⊎ ((l.key_loaded && (is_signed wire msg && not l.got_bad_signature)) ≡ true)))
  unfolding judge failed signed trust distrust
  judge-link env db l msg =
      let r = refuse-link wire env.now l in
      let w = warn-link wire env.now need_to_use l in
      let w' = warn-link wire env.now need_to_setup l in
      let h =
        handle_setup_signing-key_id tdb db env.opens env.allocates env.now
          (d.decode_setup_signing msg) (trust l) in
      ground (arith, r, h, w, w')

  -- One byte: the loop goes on, or it has completed a message, which is judged.
  pub parse_bytes-cases :
      (env : Env) (db : Db) (p : Parser) (l : Link) (b : ℕ) (bs : List ℕ)
      → let r = parse_char p (seen_signing l) b in
        ((r.2 ≡ none)
          × (parse_bytes d tdb wire env db p l (b ∷ bs)
              ≡ parse_bytes d tdb wire env db r.0 (put_signing r.1 l) bs))
        ⊎ ((m : Parsed) × (r.2 ≡ some m)
            × (parse_bytes d tdb wire env db p l (b ∷ bs)
                ≡ judged d tdb wire m.message bs r.0
                    (judge d tdb wire env db (note_asked m.asked (put_signing r.1 l)) m.message)))
  unfolding parse_bytes
  parse_bytes-cases env db p l b bs = elim (Option-cases (parse_char p (seen_signing l) b).2) [
    | inl e ↦ inl (e, rw (parse_bytes, e) refl)
    | inr (m, e) ↦ inr (m, e, rw (parse_bytes, e) refl)
  ]

  -- The link whose message is judged has the key of the link at the start.
  pub same_key :
      (asked : Bool) (s : Option SigningState) (l : Link)
      → ((note_asked asked (put_signing s l)).key_id ≡ l.key_id)
        × ((note_asked asked (put_signing s l)).key_loaded ≡ l.key_loaded)
        × ((note_asked asked (put_signing s l)).got_signed_packet ≡ l.got_signed_packet)
  same_key asked s l =
      let n = note_asked-key asked (put_signing s l) in
      let k = put_signing-key s l in (n.0 ∙ k.0, n.1 ∙ k.1, n.2 ∙ k.2)

  pub parse_bytes-nil :
      (env : Env) (db : Db) (p : Parser) (l : Link)
      → parse_bytes d tdb wire env db p l []
        ≡ (record { result = none; rest = []; parser = p; db = db; link = l; texts = [] })
  unfolding parse_bytes
  parse_bytes-nil env db p l = refl

  pub judged-link :
      (m : Message) (bs : List ℕ) (p : Parser) (j : Judged d tdb wire)
      → (judged d tdb wire m bs p j).link ≡ j.link
  unfolding judged
  judged-link m bs p j = refl

  pub judged-rest :
      (m : Message) (bs : List ℕ) (p : Parser) (j : Judged d tdb wire)
      → (judged d tdb wire m bs p j).rest ≡ bs
  unfolding judged
  judged-rest m bs p j = refl

  no_message :
      (env : Env) (db : Db) (p : Parser) (l : Link) (msg : Message)
      → (parse_bytes d tdb wire env db p l []).result ≢ some msg
  unfolding parse_bytes
  no_message env db p l msg e = ground (arith, e)

  -- What passes is the message that was judged.
  judged_passes :
      (m msg : Message) (bs : List ℕ) (p : Parser) (j : Judged d tdb wire)
      → (judged d tdb wire m bs p j).result ≡ some msg
      → (j.pass ≡ true) × (m ≡ msg)
  unfolding judged
  judged_passes m msg bs p j h = elim (Bool-cases j.pass) [
    | inl e ↦ (e, ap (or_message m) (rw e at h))
    | inr e ↦ absurd (ground (arith, h, e))
  ]

  parse_bytes-IsTrusted :
      (env : Env) (db : Db) (p : Parser) (l : Link) (bytes : List ℕ) (msg : Message)
      → has_key_id l.key_id ≡ true
      → (parse_bytes d tdb wire env db p l bytes).result ≡ some msg
      → IsTrusted l msg (parse_bytes d tdb wire env db p l bytes).link
  unfolding judged
  parse_bytes-IsTrusted env db p l [] msg key h = absurd (no_message env db p l msg h)
  parse_bytes-IsTrusted env db p l (b ∷ bs) msg key h = elim (parse_bytes-cases env db p l b bs) [
    | inl (e, same) ↦
        let k = put_signing-key (parse_char p (seen_signing l) b).1 l in
        let rest =
          parse_bytes-IsTrusted env db (parse_char p (seen_signing l) b).0
            (put_signing (parse_char p (seen_signing l) b).1 l) bs msg (ap has_key_id k.0 ∙ key)
            (ap (λ r. r.result) (sym same) ∙ h) in
        rw same (sym k.1 ∙ rest.0, rest.1, rest.2, rest.3, rest.4)
    | inr (m, e, same) ↦
        let l' = note_asked m.asked (put_signing (parse_char p (seen_signing l) b).1 l) in
        let k = same_key m.asked (parse_char p (seen_signing l) b).1 l in
        let j = judge d tdb wire env db l' m.message in
        let passed =
          judged_passes m.message msg bs (parse_char p (seen_signing l) b).0 j
            (ap (λ r. r.result) (sym same) ∙ h) in
        let t = judge-IsTrusted env db l' m.message (ap has_key_id k.0 ∙ key) passed.0 in
        rw same (subst (λ n. IsTrusted l n j.link) passed.1 (sym k.1 ∙ t.0, t.1, t.2, t.3, t.4))
  ]

  -- On a link that wants signatures, whatever the bytes and whatever the parser makes of them, a
  -- message for which receive_message returns true carries a signature that the library did not
  -- refuse, under a loaded key, and is not SETUP_SIGNING; from then on the peer counts as known.
  pub receive_message-IsTrusted :
      (env : Env) (db : Db) (p : Parser) (l : Link) (bytes : List ℕ) (msg : Message)
      → has_key_id l.key_id ≡ true
      → (receive_message d tdb wire env db p l bytes).result ≡ some msg
      → IsTrusted l msg (receive_message d tdb wire env db p l bytes).link
  unfolding receive_message
  receive_message-IsTrusted env db p l bytes msg key h =
      parse_bytes-IsTrusted env db p (record l { got_bad_signature = false }) bytes msg key h
