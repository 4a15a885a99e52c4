-- ===== src/Link/Hear.antt =====
-- `while (n > 0 && mav1.receive_message(buf0, n, msg))` of main_loop in supportproxy.cpp, for a datagram
-- or a piece of the stream of the user. What the body of the loop does to mav1 is that its sends to the
-- engineers raise the timestamp of every link and save it to the database in a child process.
use udpproxy.Prelude.{
  ℕ, zero, suc, ◌≤◌, ◌≡◌, refl, ap, ◌∙◌, inl, inr, true, Option, none, some, List, [], ◌∷◌, ◌++◌,
  arith, Option-cases, length, All, All-append,
}
use udpproxy.Message.{Message, Dialect}
use udpproxy.Database.Tdb.{Tdb}
use udpproxy.Link.{Link, Wire}
use udpproxy.Link.Signing.{raise_timestamp}
use udpproxy.Link.Signing.Keeps.{raise_timestamp-key_id}
use udpproxy.Link.Receive.{has_key_id, Env, Received, receive_message}
use udpproxy.Link.Receive.Heard.{receive_message-Heard}
use udpproxy.Link.Receive.Trust.{receive_message-IsTrusted}
use udpproxy.Link.Relay.Ends.{IsSigned, receive_message-rest}

raise_by : List ℕ → Link → Link
raise_by [] l = l
raise_by (t ∷ ts) l = raise_by ts (raise_timestamp t l)

raise_by-key_id : (ts : List ℕ) (l : Link) → (raise_by ts l).key_id ≡ l.key_id
unfolding raise_by
raise_by-key_id [] l = refl
raise_by-key_id (t ∷ ts) l = raise_by-key_id ts (raise_timestamp t l) ∙ raise_timestamp-key_id t l

module _ (d : Dialect) (tdb : Tdb) (wire : Wire) where
  open tdb use {Db}
  open wire use {Parser}

  -- What the system answers to receive_message, the timestamps of the sends that follow, and the database
  -- by the next round.
  pub record Ear : Type 0 where
    pub env : Env
    pub stamps : List ℕ
    pub db : Db

  -- What the loop reads and writes, and the messages that it has had.
  pub record Hearing : Type 0 where
    pub db : Db
    pub parser : Parser
    pub link : Link
    pub heard : List Message

  -- The effects of receive_message.
  put_in : Received d tdb wire → Hearing → Hearing
  put_in got h = record h { db = got.db; parser = got.parser; link = got.link }

  -- The body of the loop.
  let_in : Ear → Message → Hearing → Hearing
  unfolding raise_by
  let_in ear msg h = record h {
    db = ear.db;
    link = raise_by ear.stamps h.link;
    heard = h.heard ++ msg ∷ [];
  }

  -- `ears n` answers the round that starts with n bytes; `none` where the fuel runs out.
  pub hear_all : (ℕ → Ear) → ℕ → List ℕ → Hearing → Option Hearing
  unfolding put_in let_in
  hear_all ears fuel [] h = some h
  hear_all ears zero (b ∷ bs) h = none
  hear_all ears (suc fuel) (b ∷ bs) h =
      let ear = ears (length (b ∷ bs)) in
      let got = receive_message d tdb wire ear.env h.db h.parser h.link (b ∷ bs) in
      elim got.result [
        | none ↦ some (put_in got h)
        | some msg ↦ hear_all ears fuel got.rest (let_in ear msg (put_in got h))
      ]

  -- The link wants signatures, and what it has let through had them.
  pub record Guarded (h : Hearing) : Type 0 where
    pub key : has_key_id h.link.key_id ≡ true
    pub all : All (IsSigned d tdb wire) h.heard

  module _ (ears : ℕ → Ear) (b : ℕ) (bs : List ℕ) (h : Hearing) where
    abbrev ear : Ear
    ear = ears (length (b ∷ bs))

    abbrev got : Received d tdb wire
    got = receive_message d tdb wire ear.env h.db h.parser h.link (b ∷ bs)

    hear_all-none :
        (fuel : ℕ) → got.result ≡ none → hear_all ears (suc fuel) (b ∷ bs) h ≡ some (put_in got h)
    unfolding hear_all receive_message
    hear_all-none fuel e = rw (e, hear_all) refl

    hear_all-some :
        (fuel : ℕ) (msg : Message)
        → got.result ≡ some msg
        → hear_all ears (suc fuel) (b ∷ bs) h
          ≡ hear_all ears fuel got.rest (let_in ear msg (put_in got h))
    unfolding hear_all receive_message
    hear_all-some fuel msg e = rw (e, hear_all) refl

    put_in-Guarded : Guarded h → Guarded (put_in got h)
    unfolding put_in
    put_in-Guarded g =
        let same = receive_message-Heard d tdb wire ear.env h.db h.parser h.link (b ∷ bs) in
        record { key = ap has_key_id same.0 ∙ g.key; all = g.all }

    let_in-Guarded :
        (msg : Message)
        → got.result ≡ some msg
        → Guarded h
        → Guarded (let_in ear msg (put_in got h))
    unfolding let_in put_in
    let_in-Guarded msg e g =
        let t =
          receive_message-IsTrusted d tdb wire ear.env h.db h.parser h.link (b ∷ bs) msg g.key e in
        record {
          key = ap has_key_id (raise_by-key_id ear.stamps got.link) ∙ (put_in-Guarded g).key;
          all = All-append (IsSigned d tdb wire) h.heard (msg ∷ []) g.all ((t.1, t.2), tt);
        }

  hear_nothing : (ears : ℕ → Ear) (fuel : ℕ) (h : Hearing) → hear_all ears fuel [] h ≡ some h
  unfolding hear_all
  hear_nothing ears fuel h = refl

  -- With fuel for one round for each byte the loop ends, and stays guarded.
  pub hear_all-Guarded :
      (ears : ℕ → Ear) (fuel : ℕ) (bytes : List ℕ) (h : Hearing)
      → length bytes ≤ fuel
      → Guarded h
      → (h' : Hearing) × (hear_all ears fuel bytes h ≡ some h') × Guarded h'
  hear_all-Guarded ears fuel [] h enough g = (h, hear_nothing ears fuel h, g)
  hear_all-Guarded ears zero (b ∷ bs) h enough g = absurd (omega (arith, enough))
  hear_all-Guarded ears (suc fuel) (b ∷ bs) h enough g =
      elim (Option-cases (got ears b bs h).result) [
        | inl e ↦ (
          put_in (got ears b bs h) h,
          hear_all-none ears b bs h fuel e,
          put_in-Guarded ears b bs h g,
        )
        | inr (msg, e) ↦
            let env = (ears (length (b ∷ bs))).env in
            let shorter = receive_message-rest d tdb wire env h.db h.parser h.link b bs in
            let (h', ends, kept) =
              hear_all-Guarded ears fuel (got ears b bs h).rest
                (let_in (ears (length (b ∷ bs))) msg (put_in (got ears b bs h) h))
                (omega (arith, shorter, enough)) (let_in-Guarded ears b bs h msg e g) in
            (h', hear_all-some ears b bs h fuel msg e ∙ ends, kept)
      ]
