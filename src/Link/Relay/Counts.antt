-- ===== src/Link/Relay/Counts.antt =====
-- The counters of the relay loop.
use mathlib.Core.Option.{some-injective}
use udpproxy.Prelude.{
  ℕ, zero, suc, ◌+◌, ◌%◌, ◌^◌, ◌<◌, ◌≡◌, refl, sym, ap, ◌∙◌, subst, inl, inr, Bool, true, false,
  some, List, [], ◌∷◌, arith, length, length-append, Bool-cases,
}
use udpproxy.Message.{Message, Dialect}
use udpproxy.Database.Tdb.{Tdb}
use udpproxy.Link.{Wire}
use udpproxy.Link.Send.{send_message}
use udpproxy.Link.Relay.{Round, Relay, take_in, pass_on, relay}
use udpproxy.Link.Relay.Ends.{got, passed, relay-cases}

abbrev pub bit : Bool → ℕ
bit true = 1
bit false = 0

module _ (d : Dialect) (tdb : Tdb) (wire : Wire) where
  -- From r to r', `sent` messages were sent and counted, and one more was received where the last send
  -- failed.
  pub record Counted (r r' : Relay d tdb wire) : Type 0 where
    pub sent : ℕ
    pub logged : length r'.logged ≡ length r.logged + (sent + bit r'.failed)
    pub rx : r'.rx_msgs ≡ (r.rx_msgs + (sent + bit r'.failed)) % 2 ^ 32
    pub tx : r'.tx_msgs ≡ (r.tx_msgs + sent) % 2 ^ 32

  -- The counters are uint32_t, and no send has failed.
  pub record IsSmall (r : Relay d tdb wire) : Type 0 where
    pub rx : r.rx_msgs < 2 ^ 32
    pub tx : r.tx_msgs < 2 ^ 32
    pub goes : r.failed ≡ false

  nothing-Counted : (r r' : Relay d tdb wire) → IsSmall r → r ≡ r' → Counted r r'
  nothing-Counted r r' v e =
      let rx = v.rx in
      let tx = v.tx in
      subst (Counted r) e (record {
        sent = 0;
        logged = rw v.goes (omega arith);
        rx = rw v.goes (omega (arith, rx));
        tx = omega (arith, tx);
      })

  module _ (rounds : ℕ → Round) (b : ℕ) (bs : List ℕ) (r : Relay d tdb wire) (v : IsSmall r) where
    seen_same :
        ((take_in d tdb wire (got d tdb wire rounds b bs r) r).logged ≡ r.logged)
        × ((take_in d tdb wire (got d tdb wire rounds b bs r) r).failed ≡ r.failed)
    unfolding take_in
    seen_same = (refl, refl)

    seen-Counted : Counted r (take_in d tdb wire (got d tdb wire rounds b bs r) r)
    unfolding take_in
    seen-Counted =
        let rx = v.rx in
        let tx = v.tx in
        record {
          sent = 0;
          logged = rw v.goes (omega arith);
          rx = rw v.goes (omega (arith, rx));
          tx = omega (arith, tx);
        }

    passed-Counted : (msg : Message) → Counted r (passed d tdb wire rounds b bs msg r)
    unfolding take_in pass_on
    passed-Counted msg =
        let rx = v.rx in
        let tx = v.tx in
        let grown = length-append r.logged (msg ∷ []) in
        let round = rounds (length (b ∷ bs)) in
        let out = (send_message d wire round.probe round.now round.taken r.user msg).returned in
        elim (Bool-cases out) [
          | inl e ↦ record {
            sent = 1;
            logged = rw e (omega (arith, grown));
            rx = rw e refl;
            tx = rw e refl;
          }
          | inr e ↦ record {
            sent = 0;
            logged = rw e (omega (arith, grown));
            rx = rw e refl;
            tx = rw e (omega (arith, tx));
          }
        ]

  Counted-trans :
      (r s u : Relay d tdb wire) → s.failed ≡ false → Counted r s → Counted s u → Counted r u
  Counted-trans r s u f v w =
      let none_failed : bit s.failed ≡ 0 = ap bit f in
      let l = v.logged in
      let l' = w.logged in
      let x = v.rx in
      let x' = w.rx in
      let t = v.tx in
      let t' = w.tx in
      record {
        sent = v.sent + w.sent;
        logged = omega (arith, none_failed, l, l');
        rx = omega (arith, none_failed, x, x');
        tx = omega (arith, t, t');
      }

  Counted-IsSmall : (r s : Relay d tdb wire) → s.failed ≡ false → Counted r s → IsSmall s
  Counted-IsSmall r s f v =
      let x = v.rx in
      let t = v.tx in record { rx = omega (arith, x); tx = omega (arith, t); goes = f }

  pub relay-Counted :
      (rounds : ℕ → Round) (fuel : ℕ) (bytes : List ℕ) (r r' : Relay d tdb wire)
      → IsSmall r
      → relay d tdb wire rounds fuel bytes r ≡ some r'
      → Counted r r'
  unfolding relay
  relay-Counted rounds fuel [] r r' v h = nothing-Counted r r' v (some-injective r r' h)
  relay-Counted rounds zero (b ∷ bs) r r' v h = absurd (ground (arith, h))
  relay-Counted rounds (suc fuel) (b ∷ bs) r r' v h =
      elim (relay-cases d tdb wire rounds fuel b bs r) [
        | inl e ↦ subst (Counted r) (some-injective _ r' (sym e ∙ h)) (seen-Counted rounds b bs r v)
        | inr (msg, e, inl f) ↦
            subst (Counted r) (some-injective _ r' (sym f ∙ h)) (passed-Counted rounds b bs r v msg)
        | inr (msg, e, inr (goes, f)) ↦
            let next = passed d tdb wire rounds b bs msg r in
            let one = passed-Counted rounds b bs r v msg in
            Counted-trans r next r' goes one (
              relay-Counted rounds fuel (got d tdb wire rounds b bs r).rest
                (passed d tdb wire rounds b bs msg r) r' (Counted-IsSmall r next goes one)
                (sym f ∙ h))
      ]
