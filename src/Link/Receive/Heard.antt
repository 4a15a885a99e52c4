-- ===== src/Link/Receive/Heard.antt =====
-- What a call of receive_message makes of the link.
use udpproxy.Prelude.{
  ℕ, ◌≡◌, refl, ◌∙◌, ◌⊎◌, inl, inr, Bool, true, false, not, ◌&&◌, Option, none, some, List, [], ◌∷◌,
  arith, Bool-cases,
}
use udpproxy.Message.{Dialect}
use udpproxy.Database.Tdb.{Tdb}
use udpproxy.Link.{Link, SigningState, Parsed, Wire, seen_signing, put_signing}
use udpproxy.Link.Receive.{note_asked, is_signed, Env, judge, parse_bytes, receive_message}
use udpproxy.Link.Receive.Trust.{
  judge-link, parse_bytes-nil, judged-link, parse_bytes-cases, same_key,
}
use udpproxy.Link.Receive.Wary.{note_asked-bad, put_signing-key}

put_signing-bad :
    (s : Option SigningState) (l : Link) → (put_signing s l).got_bad_signature ≡ l.got_bad_signature
put_signing-bad none l = refl
put_signing-bad (some s) l = refl

module _ (d : Dialect) (tdb : Tdb) (wire : Wire) where
  open tdb use {Db}
  open wire use {Parser, parse_char}

  -- Whether the first message that completes has a signature, is not refused, and finds a key.
  pub is_good : Link → Parsed → Bool
  is_good l m = l.key_loaded && (is_signed wire m.message && not (m.asked && l.attached))

  pub hears_good : Parser → Link → List ℕ → Bool
  hears_good p l [] = false
  hears_good p l (b ∷ bs) =
      let r = parse_char p (seen_signing l) b in
      let l' = put_signing r.1 l in elim r.2 [ none ↦ hears_good r.0 l' bs | some m ↦ is_good l' m ]

  -- The peer becomes known only by something good.
  judge-Heard :
      (env : Env) (db : Db) (l : Link) (s : Option SigningState) (m : Parsed)
      → l.got_bad_signature ≡ false
      → let l' = note_asked m.asked (put_signing s l) in
        let after = (judge d tdb wire env db l' m.message).link in
        (after.key_id ≡ l.key_id)
        × ((after.got_signed_packet ≡ false)
            ⊎ ((l.got_signed_packet ≡ true) ⊎ (is_good (put_signing s l) m ≡ true)))
  unfolding is_good
  judge-Heard env db l s m clean =
      let l1 = put_signing s l in
      let l2 = note_asked m.asked l1 in
      let k = same_key d tdb wire m.asked s l in
      let k1 = put_signing-key s l in
      let bad = note_asked-bad m.asked l1 (put_signing-bad s l ∙ clean) in
      let j = judge-link d tdb wire env db l2 m.message in ground (arith, k, k1, bad, j)

  hears_good-none :
      (p : Parser) (l : Link) (b : ℕ) (bs : List ℕ)
      → (parse_char p (seen_signing l) b).2 ≡ none
      → hears_good p l (b ∷ bs)
        ≡ hears_good
            (parse_char p (seen_signing l) b).0
            (put_signing (parse_char p (seen_signing l) b).1 l)
            bs
  unfolding hears_good
  hears_good-none p l b bs e = rw (hears_good, e) refl

  hears_good-some :
      (p : Parser) (l : Link) (b : ℕ) (bs : List ℕ) (m : Parsed)
      → (parse_char p (seen_signing l) b).2 ≡ some m
      → hears_good p l (b ∷ bs) ≡ is_good (put_signing (parse_char p (seen_signing l) b).1 l) m
  unfolding hears_good is_good
  hears_good-some p l b bs m e = rw (hears_good, e) refl

  -- What a call of receive_message may do to the link.
  abbrev pub Heard : Bool → Link → Link → Type 0
  Heard good l after =
      (after.key_id ≡ l.key_id)
      × ((after.got_signed_packet ≡ false) ⊎ ((l.got_signed_packet ≡ true) ⊎ (good ≡ true)))

  Heard-refl : (good : Bool) (l : Link) → Heard good l l
  Heard-refl good l =
      (refl, elim (Bool-cases l.got_signed_packet) [ inl e ↦ inr (inl e) | inr e ↦ inl e ])

  Heard-from :
      (good : Bool) (l l' after : Link)
      → l'.key_id ≡ l.key_id
      → l'.got_signed_packet ≡ l.got_signed_packet
      → Heard good l' after
      → Heard good l after
  Heard-from good l l' after k g h = ground (arith, k, g, h)

  parse_bytes-Heard :
      (env : Env) (db : Db) (p : Parser) (l : Link) (bytes : List ℕ)
      → l.got_bad_signature ≡ false
      → Heard (hears_good p l bytes) l (parse_bytes d tdb wire env db p l bytes).link
  parse_bytes-Heard env db p l [] clean =
      rw (parse_bytes-nil d tdb wire env db p l) (Heard-refl (hears_good p l []) l)
  parse_bytes-Heard env db p l (b ∷ bs) clean =
      elim (parse_bytes-cases d tdb wire env db p l b bs) [
        | inl (e, same) ↦
            let r = parse_char p (seen_signing l) b in
            let l' = put_signing (parse_char p (seen_signing l) b).1 l in
            let rest =
              parse_bytes-Heard env db (parse_char p (seen_signing l) b).0
                (put_signing (parse_char p (seen_signing l) b).1 l) bs
                (put_signing-bad (parse_char p (seen_signing l) b).1 l ∙ clean) in
            let k = put_signing-key (parse_char p (seen_signing l) b).1 l in
            rw (same, hears_good-none p l b bs e)
              (Heard-from (hears_good r.0 l' bs) l l' (parse_bytes d tdb wire env db r.0 l' bs).link
                k.0 k.2 rest)
        | inr (m, e, same) ↦
            let l' = note_asked m.asked (put_signing (parse_char p (seen_signing l) b).1 l) in
            rw
              (
                same,
                hears_good-some p l b bs m e,
                judged-link d tdb wire m.message bs (parse_char p (seen_signing l) b).0
                    (judge d tdb wire env db l' m.message),
              )
              (judge-Heard env db l (parse_char p (seen_signing l) b).1 m clean)
      ]

  pub receive_message-Heard :
      (env : Env) (db : Db) (p : Parser) (l : Link) (bytes : List ℕ)
      → Heard
          (hears_good p (record l { got_bad_signature = false }) bytes)
          l
          (receive_message d tdb wire env db p l bytes).link
  unfolding receive_message
  receive_message-Heard env db p l bytes =
      parse_bytes-Heard env db p (record l { got_bad_signature = false }) bytes refl
