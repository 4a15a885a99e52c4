-- ===== src/MainLoop/Relaying/Runs.antt =====
-- The two loops step by step.
use udpproxy.Prelude.{
  ℕ, zero, suc, ◌≡◌, refl, sym, ap, ◌∙◌, subst, inl, inr, true, false, not, Option, some, List, [],
  ◌∷◌, ◌++◌, if◌then◌else◌, Bool-cases, Option-cases, length,
}
use mathlib.Core.List.{append_assoc, append-nil}
use mathlib.Core.Option.{some-injective}
use udpproxy.Message.{Message, Dialect}
use udpproxy.Database.Tdb.{Tdb}
use udpproxy.Link.{Wire}
use udpproxy.Link.Relay.{Round, Relay, take_in, relay}
use udpproxy.MainLoop.{Pair, Session, Relayed}
use udpproxy.MainLoop.Engineers.{engineer_message, engineer_messages}
use udpproxy.Tlog.{Heard, log_messages}
use udpproxy.MainLoop.Relaying.{got, passed, trace, texts, Agree, Follows}
use udpproxy.MainLoop.Relaying.Steps.{
  step-Agree, take_in-Agree, take_in-logged, take_in-failed, no_fuel, relay-none, relay-some,
  trace-none, trace-some, passed-logged,
}

module _ (d : Dialect) (to_buffer : Message → List ℕ) (tdb : Tdb) (p : Pair d to_buffer)
    (wire : Wire) where
  module _ (rounds : ℕ → Round) (hear : ℕ → Message → Heard to_buffer)
      (hears : (n : ℕ) (m : Message) → (hear n m).msg ≡ m) where
    abbrev pub Runs :
        ℕ
        → List (Relayed d to_buffer)
        → Session d to_buffer
        → Relay d tdb wire
        → Relay d tdb wire
        → Type 0
    Runs i ms s r r' =
        Follows d to_buffer tdb p wire i ms s r r' (engineer_messages d to_buffer tdb p i ms s)

    nothing-Runs :
        (i : ℕ) (s : Session d to_buffer) (r r' : Relay d tdb wire)
        → Agree d to_buffer tdb p wire i s r'
        → r'.logged ≡ r.logged
        → r'.failed ≡ false
        → Runs i [] s r r'
    unfolding engineer_messages log_messages
    nothing-Runs i s r r' h e f = record {
      agree = h;
      logged = e ∙ sym (append-nil r.logged);
      written = refl;
      failed = sym f;
    }

    one-Runs :
        (i : ℕ) (m : Relayed d to_buffer) (s : Session d to_buffer) (r r1 : Relay d tdb wire)
        → Agree d to_buffer tdb p wire i (engineer_message d to_buffer tdb p i m s) r1
        → r1.logged ≡ r.logged ++ m.heard.msg ∷ []
        → m.sent ≡ false
        → r1.failed ≡ true
        → Runs i (m ∷ []) s r r1
    unfolding engineer_messages engineer_message log_messages
    one-Runs i m s r r1 h e stops f =
        let out : engineer_messages d to_buffer tdb p i (m ∷ []) s
            ≡ (true, engineer_message d to_buffer tdb p i m s) =
          rw stops in
        subst (Follows d to_buffer tdb p wire i (m ∷ []) s r r1) (sym out)
          (record { agree = h; logged = e; written = refl; failed = sym f })

    more-Runs :
        (i : ℕ) (m : Relayed d to_buffer) (ms : List (Relayed d to_buffer))
        (s : Session d to_buffer) (r r1 r' : Relay d tdb wire)
        → r1.logged ≡ r.logged ++ m.heard.msg ∷ []
        → m.sent ≡ true
        → Runs i ms (engineer_message d to_buffer tdb p i m s) r1 r'
        → Runs i (m ∷ ms) s r r'
    unfolding engineer_messages engineer_message log_messages
    more-Runs i m ms s r r1 r' e goes h =
        let out : engineer_messages d to_buffer tdb p i (m ∷ ms) s
            ≡ engineer_messages d to_buffer tdb p i ms (engineer_message d to_buffer tdb p i m s) =
          rw goes in
        subst (Follows d to_buffer tdb p wire i (m ∷ ms) s r r') (sym out) (record {
          agree = h.agree;
          logged =
              h.logged
              ∙ (ap (λ l. l ++ texts d to_buffer tdb p wire ms) e
                  ∙ append_assoc r.logged (m.heard.msg ∷ []) (texts d to_buffer tdb p wire ms));
          written = h.written;
          failed = h.failed;
        })

    no_bytes-Runs :
        (i fuel : ℕ) (s : Session d to_buffer) (r r' : Relay d tdb wire)
        → Agree d to_buffer tdb p wire i s r
        → r.failed ≡ false
        → relay d tdb wire rounds fuel [] r ≡ some r'
        → Runs i (trace d to_buffer tdb p wire rounds hear fuel [] r) s r r'
    unfolding relay trace
    no_bytes-Runs i fuel s r r' h f e =
        subst (λ q. Runs i [] s r q) (some-injective r r' e) (nothing-Runs i s r r h refl f)

    -- A round with a message, where the rounds behind it are as they should be.
    round-Runs :
        (i b : ℕ) (bs : List ℕ) (msg : Message) (s : Session d to_buffer) (r r' : Relay d tdb wire)
        (rest : Option (Relay d tdb wire)) (ms : List (Relayed d to_buffer))
        → Agree d to_buffer tdb p wire i s r
        → let after = passed d to_buffer tdb p wire rounds hear b bs msg r in
          let m : Relayed d to_buffer = record {
            heard = hear (length (b ∷ bs)) msg;
            sent = not after.failed;
          } in
          (if after.failed then some after else rest) ≡ some r'
          → (after.failed ≡ false
              → Agree d to_buffer tdb p wire i (engineer_message d to_buffer tdb p i m s) after
              → rest ≡ some r'
              → Runs i ms (engineer_message d to_buffer tdb p i m s) after r')
          → Runs i (m ∷ (if after.failed then [] else ms)) s r r'
    round-Runs i b bs msg s r r' rest ms h e next =
        let after = passed d to_buffer tdb p wire rounds hear b bs msg r in
        let m : Relayed d to_buffer = record {
          heard = hear (length (b ∷ bs)) msg;
          sent = not after.failed;
        } in
        let seen = take_in d tdb wire (got d to_buffer tdb p wire rounds hear b bs r) r in
        let agree =
          step-Agree d to_buffer tdb p wire i m msg (rounds (length (b ∷ bs))) s seen refl (
            take_in-Agree d to_buffer tdb p wire i (got d to_buffer tdb p wire rounds hear b bs r) s
              r h) in
        let logged = passed-logged d to_buffer tdb p wire rounds hear hears b bs msg r in
        elim (Bool-cases after.failed) [
          | inl f ↦
              let same =
                some-injective after r'
                  (subst (λ c. (if c then some after else rest) ≡ some r') f e) in
              subst (λ c. Runs i (m ∷ (if c then [] else ms)) s r r') (sym f)
                (subst (λ q. Runs i (m ∷ []) s r q) same
                  (one-Runs i m s r after agree logged (ap not f) f))
          | inr f ↦
              let goes = subst (λ c. (if c then some after else rest) ≡ some r') f e in
              subst (λ c. Runs i (m ∷ (if c then [] else ms)) s r r') (sym f)
                (more-Runs i m ms s r after r' logged (ap not f) (next f agree goes))
        ]

    pub relay-Runs :
        (i fuel : ℕ) (bytes : List ℕ) (s : Session d to_buffer) (r r' : Relay d tdb wire)
        → Agree d to_buffer tdb p wire i s r
        → r.failed ≡ false
        → relay d tdb wire rounds fuel bytes r ≡ some r'
        → Runs i (trace d to_buffer tdb p wire rounds hear fuel bytes r) s r r'
    relay-Runs i fuel [] s r r' h f e = no_bytes-Runs i fuel s r r' h f e
    relay-Runs i zero (b ∷ bs) s r r' h f e =
        absurd (no_fuel d to_buffer tdb p wire rounds hear b bs r r' e)
    relay-Runs i (suc fuel) (b ∷ bs) s r r' h f e =
        let seen = got d to_buffer tdb p wire rounds hear b bs r in
        elim (Option-cases seen.result) [
          | inl e0 ↦
              let same =
                some-injective (take_in d tdb wire seen r) r'
                  (sym (relay-none d to_buffer tdb p wire rounds hear fuel b bs r e0) ∙ e) in
              subst (λ ms. Runs i ms s r r')
                (sym (trace-none d to_buffer tdb p wire rounds hear fuel b bs r e0))
                (subst (λ q. Runs i [] s r q) same
                  (nothing-Runs i s r (take_in d tdb wire seen r)
                    (take_in-Agree d to_buffer tdb p wire i seen s r h)
                    (take_in-logged d to_buffer tdb p wire seen r)
                    (take_in-failed d to_buffer tdb p wire seen r ∙ f)))
          | inr (msg, e0) ↦
              let after = passed d to_buffer tdb p wire rounds hear b bs msg r in
              subst (λ ms. Runs i ms s r r')
                (sym (trace-some d to_buffer tdb p wire rounds hear fuel b bs r msg e0))
                (round-Runs i b bs msg s r r' (relay d tdb wire rounds fuel seen.rest after)
                  (trace d to_buffer tdb p wire rounds hear fuel seen.rest after) h
                  (sym (relay-some d to_buffer tdb p wire rounds hear fuel b bs r msg e0) ∙ e)
                  (λ g agree goes. relay-Runs i fuel seen.rest _ after r' agree g goes))
        ]
