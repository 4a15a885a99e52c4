-- ===== src/Link/Relay/Ends.antt =====
-- The relay loop ends, and passes on only what is signed.
use mathlib.Core.Option.{some-injective}
use udpproxy.Prelude.{
  ℕ, zero, suc, ◌-◌, ◌≤◌, ◌≡◌, refl, sym, ap, ◌∙◌, subst, ◌⊎◌, inl, inr, true, false, Option, none,
  some, List, [], ◌∷◌, arith, ◌==◌, Bool-cases, Option-cases, is_some, length, All, All-append,
}
use udpproxy.Message.{Message, Dialect}
use udpproxy.Database.Tdb.{Tdb}
use udpproxy.Link.{Link, Wire, seen_signing, put_signing}
use udpproxy.Link.Signing.Keeps.{raise_timestamp-key_id}
use udpproxy.Link.Receive.Heard.{receive_message-Heard}
use udpproxy.Link.Receive.{
  has_key_id, is_signed, Env, Received, receive_message, parse_bytes, judge, note_asked,
}
use udpproxy.Link.Receive.Trust.{
  receive_message-IsTrusted, parse_bytes-cases, parse_bytes-nil, judged-rest,
}
use udpproxy.Link.Send.{send_message}
use udpproxy.Link.Relay.{Round, raised, Relay, take_in, pass_on, relay}

pub some_of : {A : Type 0} (o : Option A) → is_some o ≡ true → (a : A) × (o ≡ some a)
some_of none e = cc
some_of (some a) e = (a, refl)

pub raised-key_id : (stamp : Option ℕ) (l : Link) → (raised stamp l).key_id ≡ l.key_id
raised-key_id none l = refl
raised-key_id (some stamp) l = raise_timestamp-key_id stamp l

module _ (d : Dialect) (tdb : Tdb) (wire : Wire) where
  open tdb use {Db}
  open wire use {Parser, parse_char}

  -- Whatever happens, the loop over the bytes leaves fewer of them than it had.
  parse_bytes-rest :
      (env : Env) (db : Db) (p : Parser) (l : Link) (bytes : List ℕ)
      → length (parse_bytes d tdb wire env db p l bytes).rest ≤ length bytes - 1
  parse_bytes-rest env db p l [] = rw (parse_bytes-nil d tdb wire env db p l) (omega arith)
  parse_bytes-rest env db p l (b ∷ bs) = elim (parse_bytes-cases d tdb wire env db p l b bs) [
    | inl (e, same) ↦
        let rest =
          parse_bytes-rest env db (parse_char p (seen_signing l) b).0
            (put_signing (parse_char p (seen_signing l) b).1 l) bs in
        rw same (omega (arith, rest))
    | inr (m, e, same) ↦
        let l' = note_asked m.asked (put_signing (parse_char p (seen_signing l) b).1 l) in
        rw
          (
            same,
            judged-rest d tdb wire m.message bs (parse_char p (seen_signing l) b).0
                (judge d tdb wire env db l' m.message),
          )
          (omega arith)
  ]

  pub receive_message-rest :
      (env : Env) (db : Db) (p : Parser) (l : Link) (b : ℕ) (bs : List ℕ)
      → length (receive_message d tdb wire env db p l (b ∷ bs)).rest ≤ length bs
  unfolding receive_message
  receive_message-rest env db p l b bs =
      let h = parse_bytes-rest env db p (record l { got_bad_signature = false }) (b ∷ bs) in
      omega (arith, h)

  abbrev pub got : (ℕ → Round) → ℕ → List ℕ → Relay d tdb wire → Received d tdb wire
  got rounds b bs r =
      receive_message d tdb wire (rounds (length (b ∷ bs))).env r.db r.parser r.engineer (b ∷ bs)

  abbrev pub passed : (ℕ → Round) → ℕ → List ℕ → Message → Relay d tdb wire → Relay d tdb wire
  passed rounds b bs msg r =
      pass_on d tdb wire (rounds (length (b ∷ bs))) msg (take_in d tdb wire (got rounds b bs r) r)

  -- One round: no message, a message that cannot be sent, or a message and more rounds.
  pub relay-cases :
      (rounds : ℕ → Round) (fuel b : ℕ) (bs : List ℕ) (r : Relay d tdb wire)
      → ((relay d tdb wire rounds (suc fuel) (b ∷ bs) r)
          ≡ some (take_in d tdb wire (got rounds b bs r) r))
        ⊎ ((msg : Message) × ((got rounds b bs r).result ≡ some msg)
            × (((relay d tdb wire rounds (suc fuel) (b ∷ bs) r) ≡ some (passed rounds b bs msg r))
                ⊎ (((passed rounds b bs msg r).failed ≡ false)
                    × (relay d tdb wire rounds (suc fuel) (b ∷ bs) r
                        ≡ relay d tdb wire rounds fuel
                            (got rounds b bs r).rest
                            (passed rounds b bs msg r)))))
  unfolding relay receive_message take_in
  relay-cases rounds fuel b bs r = elim (Option-cases (got rounds b bs r).result) [
    | inl e ↦ inl (rw (e, relay) refl)
    | inr (msg, e) ↦ inr (
      msg,
      e,
      elim (Bool-cases (passed rounds b bs msg r).failed) [
        | inl f ↦ inl (rw (e, relay, f) refl)
        | inr f ↦ inr (f, rw (e, relay, f) refl)
      ],
    )
  ]

  -- Fuel for one round for each byte is enough: the loop ends.
  pub relay-terminates :
      (rounds : ℕ → Round) (fuel : ℕ) (bytes : List ℕ) (r : Relay d tdb wire)
      → length bytes ≤ fuel
      → is_some (relay d tdb wire rounds fuel bytes r) ≡ true
  unfolding relay
  relay-terminates rounds fuel [] r h = refl
  relay-terminates rounds zero (b ∷ bs) r h = absurd (omega (arith, h))
  relay-terminates rounds (suc fuel) (b ∷ bs) r h = elim (relay-cases rounds fuel b bs r) [
    | inl e ↦ rw e refl
    | inr (msg, e, inl f) ↦ rw f refl
    | inr (msg, e, inr (goes, f)) ↦
        let g = got rounds b bs r in
        let short =
          receive_message-rest (rounds (length (b ∷ bs))).env r.db r.parser r.engineer b bs in
        rw f (
          relay-terminates rounds fuel (got rounds b bs r).rest (passed rounds b bs msg r)
            (omega (arith, short, h)))
  ]

  abbrev pub IsSigned : Message → Type 0
  IsSigned msg = (is_signed wire msg ≡ true) × ((msg.msgid == d.id_setup_signing) ≡ false)

  -- What one message leaves for the next round.
  passed-IsSigned :
      (rounds : ℕ → Round) (b : ℕ) (bs : List ℕ) (msg : Message) (r : Relay d tdb wire)
      → has_key_id r.engineer.key_id ≡ true
      → (got rounds b bs r).result ≡ some msg
      → All IsSigned r.logged
      → (has_key_id (passed rounds b bs msg r).engineer.key_id ≡ true)
        × All IsSigned (passed rounds b bs msg r).logged
  unfolding take_in pass_on
  passed-IsSigned rounds b bs msg r key e all =
      let round = rounds (length (b ∷ bs)) in
      let g = got rounds b bs r in
      let t =
        receive_message-IsTrusted d tdb wire round.env r.db r.parser r.engineer (b ∷ bs) msg key
          e in
      let k = receive_message-Heard d tdb wire round.env r.db r.parser r.engineer (b ∷ bs) in
      let sending = send_message d wire round.probe round.now round.taken r.user msg in
      let same = raised-key_id sending.stamp g.link in
      (
        ap has_key_id (same ∙ k.0) ∙ key,
        All-append IsSigned r.logged (msg ∷ []) all ((t.1, t.2), tt),
      )

  logged-IsSigned :
      (r after : Relay d tdb wire)
      → All IsSigned r.logged
      → some r ≡ some after
      → All IsSigned after.logged
  logged-IsSigned r after all h = subst (λ x. All IsSigned x.logged) (some-injective r after h) all

  relay_outcome-IsSigned :
      (rounds : ℕ → Round) (fuel : ℕ) (bytes : List ℕ) (r after : Relay d tdb wire)
      → has_key_id r.engineer.key_id ≡ true
      → All IsSigned r.logged
      → relay d tdb wire rounds fuel bytes r ≡ some after
      → All IsSigned after.logged
  unfolding relay take_in
  relay_outcome-IsSigned rounds fuel [] r after key all h = logged-IsSigned r after all h
  relay_outcome-IsSigned rounds zero (b ∷ bs) r after key all h = absurd (ground (arith, h))
  relay_outcome-IsSigned rounds (suc fuel) (b ∷ bs) r after key all h =
      elim (relay-cases rounds fuel b bs r) [
        | inl e ↦ logged-IsSigned (take_in d tdb wire (got rounds b bs r) r) after all (sym e ∙ h)
        | inr (msg, e, inl f) ↦
            logged-IsSigned (passed rounds b bs msg r) after
              (passed-IsSigned rounds b bs msg r key e all).1 (sym f ∙ h)
        | inr (msg, e, inr (goes, f)) ↦
            let p = passed-IsSigned rounds b bs msg r key e all in
            relay_outcome-IsSigned rounds fuel (got rounds b bs r).rest (passed rounds b bs msg r)
              after p.0 p.1 (sym f ∙ h)
      ]

  -- On an engineer's link that wants signatures and has so far let through only signed messages,
  -- whatever bytes arrive, with one round of fuel for each: the loop ends, and every message that it
  -- gave to the telemetry log and to the user's link carries a signature, and none is SETUP_SIGNING.
  pub relay-IsSigned :
      (rounds : ℕ → Round) (fuel : ℕ) (bytes : List ℕ) (r : Relay d tdb wire)
      → length bytes ≤ fuel
      → has_key_id r.engineer.key_id ≡ true
      → All IsSigned r.logged
      → (after : Relay d tdb wire) × (relay d tdb wire rounds fuel bytes r ≡ some after)
        × All IsSigned after.logged
  relay-IsSigned rounds fuel bytes r enough key all =
      let (after, e) =
        some_of (relay d tdb wire rounds fuel bytes r)
          (relay-terminates rounds fuel bytes r enough) in
      (after, e, relay_outcome-IsSigned rounds fuel bytes r after key all e)
