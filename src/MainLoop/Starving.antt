-- ===== src/MainLoop/Starving.antt =====
-- What an engineer's connection that waits to be accepted holds up.
use udpproxy.Prelude.{ℕ, ◌≡◌, sym, subst, Bool, true, ◌&&◌, Option, List, [], ◌∷◌, arith}
use udpproxy.Message.{Message, Dialect}
use udpproxy.Database.Tdb.{Tdb}
use udpproxy.MainLoop.{
  is_ready, has_fd, Selected, interrupted, silent, ready, Pair, Session, Turn, watched,
}
use udpproxy.MainLoop.Flow.{After, Keeps, After-bind, Keeps-resume}
use udpproxy.MainLoop.User.{
  take_user, count_user, connect_udp, read_datagram, user_datagram, accepted_user, accept_user,
  detect_user, read_stream, user_stream,
}
use udpproxy.MainLoop.Engineers.{accept_engineer, with_table}
use udpproxy.MainLoop.Rounds.{serve, turn, turns}
use udpproxy.MainLoop.Rule.{from_same, turn-Keeps}
use udpproxy.MainLoop.Watched.{watched-sock2_listen}
use udpproxy.MainLoop.SameUser.{SameUser, expire-SameUser, engineer_datagram-SameUser}

-- The socket is among those that select finds ready.
abbrev pub Knocks : Option ℕ → Selected → Type 0
Knocks listen2 interrupted = Unit
Knocks listen2 silent = Unit
Knocks listen2 (ready fds) = is_ready fds listen2 ≡ true

module _ (d : Dialect) (to_buffer : Message → List ℕ) (tdb : Tdb) (p : Pair d to_buffer) where
  abbrev pub AllKnock : Option ℕ → List (Turn d to_buffer tdb) → Type 0
  AllKnock listen2 [] = Unit
  AllKnock listen2 (t ∷ ts) = Knocks listen2 t.selected × AllKnock listen2 ts

  -- No packet for the vehicle's log, and no snapshot, since s.
  pub record HeldUp (s s' : Session d to_buffer) : Type 0 where
    pub listen2 : s'.sock2_listen ≡ s.sock2_listen
    pub pumped : s'.pumped ≡ s.pumped
    pub saved : s'.saved ≡ s.saved

  module _ (s : Session d to_buffer) where
    SameUser-HeldUp :
        (u u' : Session d to_buffer) → HeldUp s u → SameUser d to_buffer u u' → HeldUp s u'
    SameUser-HeldUp u u' h v = ground arith

    module _ (t : Turn d to_buffer tdb) (fds : ℕ → Bool) where
      user_datagram-HeldUp :
          (u : Session d to_buffer)
          → HeldUp s u
          → Keeps (HeldUp s) (user_datagram d to_buffer tdb p t fds u)
      unfolding user_datagram read_datagram connect_udp take_user count_user
      user_datagram-HeldUp u h = ground arith

      accept_user-HeldUp :
          (u : Session d to_buffer)
          → HeldUp s u
          → Keeps (HeldUp s) (accept_user d to_buffer tdb p t fds u)
      unfolding accept_user accepted_user
      accept_user-HeldUp u h = ground arith

      user_stream-HeldUp :
          (u : Session d to_buffer)
          → HeldUp s u
          → Keeps (HeldUp s) (user_stream d to_buffer tdb p t fds u)
      unfolding user_stream read_stream detect_user take_user count_user
      user_stream-HeldUp u h = ground arith

      accept_engineer-HeldUp :
          (u : Session d to_buffer)
          → is_ready fds s.sock2_listen ≡ true
          → HeldUp s u
          → After (HeldUp s) (λ v. ⊥) (accept_engineer d to_buffer tdb p t fds u)
      unfolding accept_engineer with_table
      accept_engineer-HeldUp u e h =
          let here = subst (λ o. is_ready fds o ≡ true) (sym h.listen2) e in ground (arith, here)

      serve-HeldUp :
          (u : Session d to_buffer)
          → is_ready fds s.sock2_listen ≡ true
          → HeldUp s u
          → Keeps (HeldUp s) (serve d to_buffer tdb p t fds u)
      unfolding serve
      serve-HeldUp u e h =
          let P = HeldUp s in
          let from = from_same d to_buffer tdb p P SameUser-HeldUp t in
          let a = from u _ (expire-SameUser d to_buffer tdb p t fds u) h in
          let b = After-bind P P P _ _ a user_datagram-HeldUp in
          let c =
            After-bind P P P _ _ b
              (λ v. from v _ (engineer_datagram-SameUser d to_buffer tdb p t fds v)) in
          let f = After-bind P P P _ _ c accept_user-HeldUp in
          let g = After-bind P P P _ _ f user_stream-HeldUp in
          let k = After-bind P P (λ v. ⊥) _ _ g (λ v. accept_engineer-HeldUp v e) in
          let l = After-bind P (λ v. ⊥) (λ v. ⊥) _ _ k (λ v f. absurd f) in
          After-bind P (λ v. ⊥) P _ _ l (λ v f. absurd f)

    turn-HeldUp :
        (t : Turn d to_buffer tdb)
        → Knocks s.sock2_listen t.selected
        → (u : Session d to_buffer) → HeldUp s u
        → Keeps (HeldUp s) (turn d to_buffer tdb p t u)
    turn-HeldUp t knocks = turn-Keeps d to_buffer tdb p (HeldUp s) SameUser-HeldUp t (λ fds u e h.
        let knock = subst (Knocks s.sock2_listen) e knocks in
        let here = subst (λ o. is_ready fds o ≡ true) (sym h.listen2) knock in
        let left =
          subst (λ o. is_ready (λ x. has_fd (watched d to_buffer u) x && fds x) o ≡ true) h.listen2
            (watched-sock2_listen d to_buffer u fds here) in
        serve-HeldUp t (λ x. has_fd (watched d to_buffer u) x && fds x) u left h)

    turns-HeldUp :
        (ts : List (Turn d to_buffer tdb)) (u : Session d to_buffer)
        → AllKnock s.sock2_listen ts
        → HeldUp s u
        → Keeps (HeldUp s) (turns d to_buffer tdb p ts u)
    unfolding turns
    turns-HeldUp [] u k h = h
    turns-HeldUp (t ∷ ts) u k h =
        Keeps-resume (HeldUp s) (HeldUp s) (turn d to_buffer tdb p t u) _ (turn-HeldUp t k.0 u h)
          (λ v w. turns-HeldUp ts v k.1 w)

  -- As long as every round finds a connection of an engineer to accept, whether accept succeeds or
  -- not and whatever else arrives, no packet for the vehicle's dataflash log is sent and no
  -- snapshot of the connections is taken.
  pub accepts_hold_up :
      (s : Session d to_buffer) (ts : List (Turn d to_buffer tdb))
      → AllKnock s.sock2_listen ts
      → Keeps (HeldUp s) (turns d to_buffer tdb p ts s)
  accepts_hold_up s ts k = turns-HeldUp s ts s k (ground arith)
