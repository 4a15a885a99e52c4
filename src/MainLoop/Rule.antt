-- ===== src/MainLoop/Rule.antt =====
-- How a property of the states of main_loop is shown for every round: it stands as long as the
-- user's side does, and the parts
-- that read of the user, and the end of the round, keep it.
use udpproxy.Prelude.{ℕ, ◌+◌, ◌≡◌, refl, Bool, ◌&&◌, List, [], ◌∷◌, ltb, if-both}
use udpproxy.Message.{Message, Dialect}
use udpproxy.Database.Tdb.{Tdb}
use udpproxy.MainLoop.{has_fd, Selected, interrupted, silent, ready, Pair, Session, Turn, watched}
use udpproxy.MainLoop.Flow.{Flow, After, Keeps, After-bind, Keeps-map, Keeps-resume}
use udpproxy.MainLoop.User.{user_datagram, accept_user, user_stream}
use udpproxy.MainLoop.Rounds.{check_user, finish, serve, answered, turn, turns}
use udpproxy.MainLoop.SameUser.{
  SameUser, take_drops-SameUser, expire-SameUser, engineer_datagram-SameUser,
  accept_engineer-SameUser, read_engineers-SameUser,
}

module _ (d : Dialect) (to_buffer : Message → List ℕ) (tdb : Tdb) (p : Pair d to_buffer)
    (P : Session d to_buffer → Type 0) where
  pub turns-Keeps :
      ((t : Turn d to_buffer tdb) (s : Session d to_buffer)
        → P s
        → Keeps P (turn d to_buffer tdb p t s))
      → (ts : List (Turn d to_buffer tdb)) (s : Session d to_buffer) → P s
      → Keeps P (turns d to_buffer tdb p ts s)
  unfolding turns
  turns-Keeps keep [] s h = h
  turns-Keeps keep (t ∷ ts) s h =
      Keeps-resume P P (turn d to_buffer tdb p t s) (turns d to_buffer tdb p ts) (keep t s h)
        (turns-Keeps keep ts)

  check_user-Keeps :
      (t : Turn d to_buffer tdb) (s : Session d to_buffer)
      → P s
      → Keeps P (check_user d to_buffer tdb p t s)
  unfolding check_user
  check_user-Keeps t s h =
      if-both (Keeps P) (s.have_conn1 && ltb (s.last_pkt1 + 10_000_000) t.began) tt h

  module _ (same : (s s' : Session d to_buffer) → P s → SameUser d to_buffer s s' → P s')
      (t : Turn d to_buffer tdb) where
    pub from_same :
        (s : Session d to_buffer) (m : Flow (Session d to_buffer))
        → Keeps (SameUser d to_buffer s) m
        → P s
        → Keeps P m
    from_same s m k h = Keeps-map (SameUser d to_buffer s) P m (λ s' v. same s s' h v) k

    pub serve-Keeps :
        (fds : ℕ → Bool) (Q : Session d to_buffer → Type 0)
        → ((s : Session d to_buffer) → P s → Keeps P (user_datagram d to_buffer tdb p t fds s))
        → ((s : Session d to_buffer) → P s → After P Q (accept_user d to_buffer tdb p t fds s))
        → ((s : Session d to_buffer) → Q s → Keeps P (user_stream d to_buffer tdb p t fds s))
        → ((s : Session d to_buffer) → P s → Keeps P (finish d to_buffer tdb p t s))
        → (s : Session d to_buffer) → P s
        → Keeps P (serve d to_buffer tdb p t fds s)
    unfolding serve
    serve-Keeps fds Q by_udp by_accept by_tcp at_end s h =
        let a = from_same s _ (expire-SameUser d to_buffer tdb p t fds s) h in
        let b = After-bind P P P _ _ a by_udp in
        let c =
          After-bind P P P _ _ b
            (λ s. from_same s _ (engineer_datagram-SameUser d to_buffer tdb p t fds s)) in
        let e = After-bind P P Q _ _ c by_accept in
        let f = After-bind P Q P _ _ e by_tcp in
        let g =
          After-bind P P P _ _ f
            (λ s. from_same s _ (accept_engineer-SameUser d to_buffer tdb p t fds s)) in
        let k =
          After-bind P P P _ _ g
            (λ s. from_same s _ (read_engineers-SameUser d to_buffer tdb p t fds s)) in
        After-bind P P P _ _ k at_end

    -- What select leaves in the set, where it was called in the state s.
    abbrev pub left_in : (ℕ → Bool) → Session d to_buffer → ℕ → Bool
    left_in fds s fd = has_fd (watched d to_buffer s) fd && fds fd

    module _
        (serves : (fds : ℕ → Bool) (s : Session d to_buffer)
          → t.selected ≡ ready fds
          → P s
          → Keeps P (serve d to_buffer tdb p t (left_in fds s) s)) where
      answered-Keeps :
          (answer : Selected) (s : Session d to_buffer)
          → t.selected ≡ answer
          → P s
          → Keeps P (answered d to_buffer tdb p t answer s)
      unfolding answered
      answered-Keeps interrupted s e h = h
      answered-Keeps silent s e h = tt
      answered-Keeps (ready fds) s e h = serves fds s e h

      pub turn-Keeps : (s : Session d to_buffer) → P s → Keeps P (turn d to_buffer tdb p t s)
      unfolding turn
      turn-Keeps s h =
          After-bind P P P _ _
            (After-bind P P P _ _
              (from_same s _ (take_drops-SameUser d to_buffer tdb p t (SameUser d to_buffer s) s) h)
              (check_user-Keeps t))
            (λ s. answered-Keeps t.selected s refl)
