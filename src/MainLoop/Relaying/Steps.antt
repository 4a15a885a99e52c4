-- ===== src/MainLoop/Relaying/Steps.antt =====
-- One round of the links' loop, and one message of the loop of main_loop.
use udpproxy.Prelude.{
  ℕ, zero, suc, ◌≡◌, refl, sym, ap, not, none, some, List, [], ◌∷◌, ◌++◌, arith, if◌then◌else◌,
  length,
}
use udpproxy.Message.{Message, Dialect}
use udpproxy.Database.Tdb.{Tdb}
use udpproxy.Link.{Wire}
use udpproxy.Link.Receive.{Received, receive_message}
use udpproxy.Link.Relay.{Round, Relay, take_in, pass_on, relay}
use udpproxy.MainLoop.{Pair, Session, Relayed}
use udpproxy.MainLoop.User.{inc32}
use udpproxy.MainLoop.Engineers.{on_slot, count_rx, engineer_message}
use udpproxy.Slots.{Slot}
use udpproxy.Slots.Admission.{update}
use udpproxy.Tlog.{Heard}
use udpproxy.MainLoop.Relaying.{rx_of, got, passed, trace, Agree}

rx_of-count :
    (i n : ℕ) (ss : List Slot)
    → rx_of i ss ≡ some n
    → rx_of i (update i count_rx ss) ≡ some (inc32 n)
unfolding update count_rx
rx_of-count i n [] e = cc
rx_of-count zero n (s ∷ ss) e =
    let same : s.rx_msgs ≡ n = ground arith in ap (λ m. some (inc32 m)) same
rx_of-count (suc i) n (s ∷ ss) e = rx_of-count i n ss e

module _ (d : Dialect) (to_buffer : Message → List ℕ) (tdb : Tdb) (p : Pair d to_buffer)
    (wire : Wire) where
  pub step-Agree :
      (i : ℕ) (m : Relayed d to_buffer) (msg : Message) (round : Round) (s : Session d to_buffer)
      (r : Relay d tdb wire)
      → m.sent ≡ not (pass_on d tdb wire round msg r).failed
      → Agree d to_buffer tdb p wire i s r
      → Agree d to_buffer tdb p wire i
          (engineer_message d to_buffer tdb p i m s)
          (pass_on d tdb wire round msg r)
  unfolding engineer_message pass_on on_slot
  step-Agree i m msg round s r e h = record {
    tx = ground (arith, e, h.tx);
    rx = rx_of-count i r.rx_msgs s.loop.table.slots h.rx;
  }

  pub take_in-Agree :
      (i : ℕ) (got : Received d tdb wire) (s : Session d to_buffer) (r : Relay d tdb wire)
      → Agree d to_buffer tdb p wire i s r
      → Agree d to_buffer tdb p wire i s (take_in d tdb wire got r)
  unfolding take_in
  take_in-Agree i got s r h = record { tx = h.tx; rx = h.rx }

  pub take_in-logged :
      (got : Received d tdb wire) (r : Relay d tdb wire)
      → (take_in d tdb wire got r).logged ≡ r.logged
  unfolding take_in
  take_in-logged got r = refl

  pub take_in-failed :
      (got : Received d tdb wire) (r : Relay d tdb wire)
      → (take_in d tdb wire got r).failed ≡ r.failed
  unfolding take_in
  take_in-failed got r = refl

  module _ (rounds : ℕ → Round) (hear : ℕ → Message → Heard to_buffer) where
    pub no_fuel :
        (b : ℕ) (bs : List ℕ) (r r' : Relay d tdb wire)
        → relay d tdb wire rounds zero (b ∷ bs) r ≡ some r'
        → ⊥
    unfolding relay
    no_fuel b bs r r' e = cc

    module _ (fuel b : ℕ) (bs : List ℕ) (r : Relay d tdb wire) where
      pub relay-none :
          (got d to_buffer tdb p wire rounds hear b bs r).result ≡ none
          → relay d tdb wire rounds (suc fuel) (b ∷ bs) r
            ≡ some (take_in d tdb wire (got d to_buffer tdb p wire rounds hear b bs r) r)
      unfolding relay receive_message take_in
      relay-none e = rw (e, relay) refl

      pub relay-some :
          (msg : Message)
          → (got d to_buffer tdb p wire rounds hear b bs r).result ≡ some msg
          → let after = passed d to_buffer tdb p wire rounds hear b bs msg r in
            relay d tdb wire rounds (suc fuel) (b ∷ bs) r ≡ (
              if after.failed
              then some after
              else relay d tdb wire rounds fuel
                  (got d to_buffer tdb p wire rounds hear b bs r).rest
                  after)
      unfolding relay receive_message take_in
      relay-some msg e = rw (e, relay) refl

      pub trace-none :
          (got d to_buffer tdb p wire rounds hear b bs r).result ≡ none
          → trace d to_buffer tdb p wire rounds hear (suc fuel) (b ∷ bs) r ≡ []
      unfolding trace receive_message take_in
      trace-none e = rw (e, trace) refl

      pub trace-some :
          (msg : Message)
          → (got d to_buffer tdb p wire rounds hear b bs r).result ≡ some msg
          → let after = passed d to_buffer tdb p wire rounds hear b bs msg r in
            trace d to_buffer tdb p wire rounds hear (suc fuel) (b ∷ bs) r
            ≡ record { heard = hear (length (b ∷ bs)) msg; sent = not after.failed }
              ∷ (if after.failed
                  then []
                  else trace d to_buffer tdb p wire rounds hear fuel
                      (got d to_buffer tdb p wire rounds hear b bs r).rest
                      after)
      unfolding trace receive_message take_in
      trace-some msg e = rw (e, trace) refl

    pub passed-logged :
        (hears : (n : ℕ) (m : Message) → (hear n m).msg ≡ m) (b : ℕ) (bs : List ℕ) (msg : Message)
        (r : Relay d tdb wire)
        → (passed d to_buffer tdb p wire rounds hear b bs msg r).logged
          ≡ r.logged ++ (hear (length (b ∷ bs)) msg).msg ∷ []
    unfolding pass_on take_in
    passed-logged hears b bs msg r =
        ap (λ (m : Message). r.logged ++ m ∷ []) (sym (hears (length (b ∷ bs)) msg))
