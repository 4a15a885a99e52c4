-- ===== src/MainLoop/Relaying/Accounts.antt =====
-- What main_loop counts and logs of what the links pass on.
use udpproxy.Prelude.{
  ℕ, zero, suc, ◌≤◌, ◌≡◌, refl, sym, ap, ◌∙◌, subst, inl, inr, true, some, List, [], ◌∷◌, ◌++◌,
  Option-cases, length, Bool, ◌+◌, ◌%◌, ◌^◌, arith, length-append, All, if-both,
}
use udpproxy.Message.{Message, Dialect}
use udpproxy.Database.Tdb.{Tdb}
use udpproxy.Link.{Wire}
use udpproxy.Link.Relay.{Round, Relay, relay}
use udpproxy.MainLoop.{Pair, Session, Relayed}
use udpproxy.MainLoop.Engineers.{engineer_messages}
use udpproxy.Tlog.{TlogFile, Heard, log_messages}
use udpproxy.Link.Relay.Ends.{some_of, relay-terminates}
use udpproxy.Tlog.Reading.{entries, log_bytes, IsWritten, log_messages-some}
use udpproxy.Link.Relay.Counts.{bit, Counted, IsSmall, relay-Counted}
use udpproxy.MainLoop.Relaying.{rx_of, got, passed, trace, texts, heards, Agree}
use udpproxy.MainLoop.Relaying.Steps.{trace-none, trace-some}
use udpproxy.MainLoop.Relaying.Runs.{Runs, relay-Runs}

module _ (d : Dialect) (to_buffer : Message → List ℕ) (tdb : Tdb) (p : Pair d to_buffer)
    (wire : Wire) where
  -- What main_loop has counted of the messages ms, where all but the one whose send failed were sent.
  pub record IsAccounted (i : ℕ) (ms : List (Relayed d to_buffer)) (s : Session d to_buffer)
      (received : ℕ) (out : Bool × Session d to_buffer) : Type 0 where
    pub sent : ℕ
    pub handled : length ms ≡ sent + bit out.0
    pub rx : rx_of i out.1.loop.table.slots ≡ some ((received + (sent + bit out.0)) % 2 ^ 32)
    pub tx : out.1.mav1_tx_msgs ≡ (s.mav1_tx_msgs + sent) % 2 ^ 32

  module _ (rounds : ℕ → Round) (hear : ℕ → Message → Heard to_buffer)
      (hears : (n : ℕ) (m : Message) → (hear n m).msg ≡ m) where
    length-texts :
        (ms : List (Relayed d to_buffer)) → length (texts d to_buffer tdb p wire ms) ≡ length ms
    length-texts [] = refl
    length-texts (m ∷ ms) = ap suc (length-texts ms)

    Runs-IsAccounted :
        (i : ℕ) (ms : List (Relayed d to_buffer)) (s : Session d to_buffer)
        (r r' : Relay d tdb wire)
        → Agree d to_buffer tdb p wire i s r
        → Runs d to_buffer tdb p wire rounds hear hears i ms s r r'
        → Counted d tdb wire r r'
        → IsAccounted i ms s r.rx_msgs (engineer_messages d to_buffer tdb p i ms s)
    Runs-IsAccounted i ms s r r' h run v =
        let out = engineer_messages d to_buffer tdb p i ms s in
        let failed : bit out.0 ≡ bit r'.failed = ap bit run.failed in
        let all = ap length run.logged ∙ length-append r.logged (texts d to_buffer tdb p wire ms) in
        let each = length-texts ms in
        let logged = v.logged in
        let rx = v.rx in
        let tx = v.tx in
        let tx' = run.agree.tx in
        let tx0 = h.tx in
        let same : r'.rx_msgs ≡ (r.rx_msgs + (v.sent + bit out.0)) % 2 ^ 32 =
          omega (arith, failed, rx) in
        record {
          sent = v.sent;
          handled = omega (arith, failed, all, each, logged);
          rx = run.agree.rx ∙ ap some same;
          tx = omega (arith, tx, tx', tx0);
        }

    heards-IsWritten :
        ((n : ℕ) (m : Message) → IsWritten to_buffer (hear n m))
        → (fuel : ℕ) (bytes : List ℕ) (r : Relay d tdb wire)
        → All
            (IsWritten to_buffer)
            (heards d to_buffer tdb p wire (trace d to_buffer tdb p wire rounds hear fuel bytes r))
    unfolding trace
    heards-IsWritten whole fuel [] r = tt
    heards-IsWritten whole zero (b ∷ bs) r = tt
    heards-IsWritten whole (suc fuel) (b ∷ bs) r =
        let Whole = λ (ms : List (Relayed d to_buffer)).
          All (IsWritten to_buffer) (heards d to_buffer tdb p wire ms) in
        let seen = got d to_buffer tdb p wire rounds hear b bs r in
        elim (Option-cases seen.result) [
          | inl e ↦
              subst Whole (sym (trace-none d to_buffer tdb p wire rounds hear fuel b bs r e)) tt
          | inr (msg, e) ↦
              let after = passed d to_buffer tdb p wire rounds hear b bs msg r in
              let rest = heards-IsWritten whole fuel seen.rest after in
              subst Whole (sym (trace-some d to_buffer tdb p wire rounds hear fuel b bs r msg e))
                (whole (length (b ∷ bs)) msg, if-both Whole after.failed tt rest)
        ]

    -- The loop of main_loop over the messages that the links make of the bytes, from a state that
    -- agrees with theirs and where no send has failed, with the telemetry log enabled and open and its
    -- writes complete, and with one round of fuel for each byte: the links' loop ends; main_loop has
    -- counted each message as received, and each as sent but the one whose send failed, which is the
    -- last; the file of the log has grown by the record of each message, in order, which are those that
    -- the links pass on; and it fails where they fail.
    pub relay_refines :
        ((n : ℕ) (m : Message) → IsWritten to_buffer (hear n m))
        → (i fuel : ℕ) (bytes : List ℕ) (s : Session d to_buffer) (r : Relay d tdb wire)
          (f : TlogFile)
        → length bytes ≤ fuel
        → Agree d to_buffer tdb p wire i s r
        → IsSmall d tdb wire r
        → p.setup.tlog_enabled ≡ true
        → s.loop.tlog ≡ some f
        → let ms = trace d to_buffer tdb p wire rounds hear fuel bytes r in
          let out = engineer_messages d to_buffer tdb p i ms s in
          (r' : Relay d tdb wire) × (relay d tdb wire rounds fuel bytes r ≡ some r')
          × Runs d to_buffer tdb p wire rounds hear hears i ms s r r'
          × IsAccounted i ms s r.rx_msgs out
          × (out.1.loop.tlog
              ≡ some (record f {
                content =
                    f.content ++ log_bytes (entries to_buffer (heards d to_buffer tdb p wire ms));
              }))
    relay_refines whole i fuel bytes s r f enough h small on opened =
        let (r', e) =
          some_of (relay d tdb wire rounds fuel bytes r)
            (relay-terminates d tdb wire rounds fuel bytes r enough) in
        let ms = trace d to_buffer tdb p wire rounds hear fuel bytes r in
        let run =
          relay-Runs d to_buffer tdb p wire rounds hear hears i fuel bytes s r r' h small.goes e in
        let hs = heards d to_buffer tdb p wire ms in
        let port = p.setup.port2 in
        let n = p.setup.session_n in
        (
          r',
          e,
          run,
          Runs-IsAccounted i ms s r r' h run
              (relay-Counted d tdb wire rounds fuel bytes r r' small e),
          run.written
              ∙ (ap (λ b. log_messages to_buffer b port n hs s.loop.tlog) on
                  ∙ (ap (log_messages to_buffer true port n hs) opened
                      ∙ log_messages-some to_buffer port n hs f
                          (heards-IsWritten whole fuel bytes r))),
        )
