-- ===== src/MainLoop/Overrun.antt =====
-- The slot beyond the last one.
mod Parts
use udpproxy.Prelude.{
  ℕ, ◌≡◌, refl, sym, subst, Bool, true, false, ◌&&◌, none, some, List, arith, length,
}
use udpproxy.Message.{Message, Dialect}
use udpproxy.Database.Tdb.{Tdb}
use udpproxy.MainLoop.{is_ready, has_fd, ready, Pair, Session, Turn, watched}
use udpproxy.MainLoop.Flow.{fall, Until, Until-bind}
use udpproxy.MainLoop.Rounds.{take_drops, check_user, serve, answered, turn}
use udpproxy.MainLoop.Watched.{is_ready_left, watched-sock2_udp}
use udpproxy.Slots.{Address, Table}
use udpproxy.Slots.Leak.{Idle, visits, visits-Idle}
use udpproxy.MainLoop.Overrun.Parts.{
  Crowded, Beyond, expire-Crowded, engineer_datagram-Beyond, skip_user, skip_accept, skip_stream,
  skip_listen, read_engineers-overrun,
}

module _ (d : Dialect) (to_buffer : Message → List ℕ) (tdb : Tdb) (p : Pair d to_buffer) where
  -- A round of a session without a user, without a request of the web interface, that finds ready of
  -- all its sockets only the engineers' UDP socket.
  pub record OnlyEngineer (s : Session d to_buffer) (t : Turn d to_buffer tdb) (fds : ℕ → Bool)
      : Type 0 where
    pub alone : s.have_conn1 ≡ false
    pub calm : t.signal ≡ none
    pub answer : t.selected ≡ ready fds
    pub there : is_ready fds s.sock2_udp ≡ true
    pub no_datagram : is_ready fds s.sock1_udp ≡ false
    pub no_stream : is_ready fds s.sock1_tcp ≡ false
    pub no_connection : is_ready fds s.sock2_listen ≡ false

  serve-overruns :
      (s : Session d to_buffer) (t : Turn d to_buffer tdb) (fds left : ℕ → Bool) (n : ℕ)
      → Crowded d to_buffer tdb p s s
      → t.engineer_input.size ≡ some n
      → is_ready left s.sock2_udp ≡ true
      → is_ready left s.sock1_udp ≡ false
      → is_ready left s.sock1_tcp ≡ false
      → is_ready left s.sock2_listen ≡ false
      → Until (λ v. ⊥) (serve d to_buffer tdb p t left s)
  unfolding serve
  serve-overruns s t fds left n h size a b c e =
      let P = Crowded d to_buffer tdb p s in
      let Q = Beyond d to_buffer tdb p s in
      let f = expire-Crowded d to_buffer tdb p s t left s h in
      let g = Until-bind P P _ _ f (λ u. skip_user d to_buffer tdb p s t left u b) in
      let k =
        Until-bind P Q _ _ g
          (λ u. engineer_datagram-Beyond d to_buffer tdb p s t left n u size a) in
      let l = Until-bind Q Q _ _ k (λ u. skip_accept d to_buffer tdb p s t left u c) in
      let m = Until-bind Q Q _ _ l (λ u. skip_stream d to_buffer tdb p s t left u c) in
      let o = Until-bind Q Q _ _ m (λ u. skip_listen d to_buffer tdb p s t left u e) in
      let q = Until-bind Q (λ v. ⊥) _ _ o (read_engineers-overrun d to_buffer tdb p s t left) in
      Until-bind (λ v. ⊥) (λ v. ⊥) _ _ q (λ v f. absurd f)

  no_drops :
      (s : Session d to_buffer) (t : Turn d to_buffer tdb)
      → t.signal ≡ none
      → take_drops d to_buffer tdb p t s ≡ fall s
  unfolding take_drops
  no_drops s t e = rw e

  no_check :
      (s : Session d to_buffer) (t : Turn d to_buffer tdb)
      → s.have_conn1 ≡ false
      → check_user d to_buffer tdb p t s ≡ fall s
  unfolding check_user
  no_check s t e = simp e

  -- Where no slot is used and both counters stand at 100.
  turn-overruns :
      (s : Session d to_buffer) (t : Turn d to_buffer tdb) (fds : ℕ → Bool) (n : ℕ)
      → Idle 100 s.loop.table
      → OnlyEngineer s t fds
      → t.engineer_input.size ≡ some n
      → Until (λ v. ⊥) (turn d to_buffer tdb p t s)
  unfolding turn answered
  turn-overruns s t fds n idle only size =
      let xs = watched d to_buffer s in
      let left = λ (fd : ℕ). has_fd xs fd && fds fd in
      let Same = λ (u : Session d to_buffer). u ≡ s in
      let crowded : Crowded d to_buffer tdb p s s = ground (arith, only.alone, idle) in
      let here = watched-sock2_udp d to_buffer s fds only.there in
      let served =
        serve-overruns s t fds left n crowded size here
          (is_ready_left xs fds s.sock1_udp only.no_datagram)
          (is_ready_left xs fds s.sock1_tcp only.no_stream)
          (is_ready_left xs fds s.sock2_listen only.no_connection) in
      let waits : Until (λ v. ⊥) (answered d to_buffer tdb p t t.selected s) =
        subst (λ answer. Until (λ v. ⊥) (answered d to_buffer tdb p t answer s)) (sym only.answer)
          served in
      let checked =
        Until-bind Same Same _ (check_user d to_buffer tdb p t)
          (subst (Until Same) (sym (no_drops s t only.calm)) refl)
          (λ u e.
            subst (λ v. Until Same (check_user d to_buffer tdb p t v)) (sym e)
              (subst (Until Same) (sym (no_check s t only.alone)) refl)) in
      Until-bind Same (λ v. ⊥) _ _ checked
        (λ u e.
          subst (λ v. Until (λ v. ⊥) (answered d to_buffer tdb p t t.selected v)) (sym e) waits)

  -- In a session without a user, after a hundred visits of UDP engineers, each of which sent a datagram
  -- and then timed out, from a table with no used slot and both counters at 0: a round that finds one
  -- more datagram of an engineer, and nothing else, reads the slot beyond the last, before the test
  -- that ends the process for such a counter comes to see it.
  pub visits_overrun :
      (s : Session d to_buffer) (t : Turn d to_buffer tdb) (fds : ℕ → Bool) (n : ℕ) (a : Address)
      (times : List ℕ) (table : Table)
      → Idle 0 table
      → length times ≡ 100
      → s.loop.table ≡ visits a times table
      → OnlyEngineer s t fds
      → t.engineer_input.size ≡ some n
      → Until (λ v. ⊥) (turn d to_buffer tdb p t s)
  visits_overrun s t fds n a times table idle hundred e only size =
      let after = visits-Idle a times 0 table (omega (arith, hundred)) idle in
      let full = subst (λ c. Idle c (visits a times table)) (omega (arith, hundred)) after in
      turn-overruns s t fds n (subst (Idle 100) (sym e) full) only size
