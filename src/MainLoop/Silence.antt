-- ===== src/MainLoop/Silence.antt =====
-- The end of a session whose user has gone.
use udpproxy.Prelude.{
  ℕ, ◌+◌, ◌<◌, ◌≡◌, subst, Bool, true, false, ◌&&◌, Option, List, [], ◌∷◌, ◌++◌, arith,
}
use udpproxy.Message.{Message, Dialect}
use udpproxy.Database.Tdb.{Tdb}
use udpproxy.MainLoop.{
  is_ready, has_fd, Selected, interrupted, silent, ready, Pair, Session, Turn, watched,
}
use udpproxy.MainLoop.Flow.{Keeps, Stops, After-bind, Keeps-resume}
use udpproxy.MainLoop.User.{user_datagram, accept_user, user_stream}
use udpproxy.MainLoop.Rounds.{check_user, pump_binlog, snapshot, finish, turn, turns}
use udpproxy.MainLoop.Rule.{serve-Keeps, turn-Keeps}
use udpproxy.MainLoop.Watched.{is_ready_left}
use udpproxy.MainLoop.SameUser.{SameUser, take_drops-SameUser}

-- select finds nothing to read on these two sockets.
abbrev pub Unheard : Option ℕ → Option ℕ → Selected → Type 0
Unheard udp tcp interrupted = Unit
Unheard udp tcp silent = Unit
Unheard udp tcp (ready fds) = (is_ready fds udp ≡ false) × (is_ready fds tcp ≡ false)

module _ (d : Dialect) (to_buffer : Message → List ℕ) (tdb : Tdb) (p : Pair d to_buffer) where
  -- No round finds anything to read of the user of s.
  abbrev pub AllUnheard : Session d to_buffer → List (Turn d to_buffer tdb) → Type 0
  AllUnheard s [] = Unit
  AllUnheard s (t ∷ ts) = Unheard s.sock1_udp s.sock1_tcp t.selected × AllUnheard s ts

  -- The user of s, last heard when it was in s.
  record Waits (s s' : Session d to_buffer) : Type 0 where
    conn : s'.have_conn1 ≡ true
    last : s'.last_pkt1 ≡ s.last_pkt1
    udp : s'.sock1_udp ≡ s.sock1_udp
    tcp : s'.sock1_tcp ≡ s.sock1_tcp

  module _ (s : Session d to_buffer) where
    SameUser-Waits :
        (u u' : Session d to_buffer) → Waits s u → SameUser d to_buffer u u' → Waits s u'
    SameUser-Waits u u' h v = ground arith

    module _ (t : Turn d to_buffer tdb) (fds : ℕ → Bool) (u_udp : is_ready fds s.sock1_udp ≡ false)
        (u_tcp : is_ready fds s.sock1_tcp ≡ false) where
      user_datagram-Waits :
          (u : Session d to_buffer)
          → Waits s u
          → Keeps (Waits s) (user_datagram d to_buffer tdb p t fds u)
      unfolding user_datagram
      user_datagram-Waits u h = ground (arith, u_udp)

      accept_user-Waits :
          (u : Session d to_buffer)
          → Waits s u
          → Keeps (Waits s) (accept_user d to_buffer tdb p t fds u)
      unfolding accept_user
      accept_user-Waits u h = ground (arith, u_tcp)

      user_stream-Waits :
          (u : Session d to_buffer)
          → Waits s u
          → Keeps (Waits s) (user_stream d to_buffer tdb p t fds u)
      unfolding user_stream
      user_stream-Waits u h = ground (arith, u_tcp)

    finish-Waits :
        (t : Turn d to_buffer tdb) (u : Session d to_buffer)
        → Waits s u
        → Keeps (Waits s) (finish d to_buffer tdb p t u)
    unfolding finish snapshot pump_binlog
    finish-Waits t u h = ground arith

    turn-Waits :
        (t : Turn d to_buffer tdb)
        → Unheard s.sock1_udp s.sock1_tcp t.selected
        → (u : Session d to_buffer) → Waits s u
        → Keeps (Waits s) (turn d to_buffer tdb p t u)
    turn-Waits t quiet = turn-Keeps d to_buffer tdb p (Waits s) SameUser-Waits t (λ fds u e.
        let still = subst (Unheard s.sock1_udp s.sock1_tcp) e quiet in
        let xs = watched d to_buffer u in
        let left = λ (fd : ℕ). has_fd xs fd && fds fd in
        let by_udp = is_ready_left xs fds s.sock1_udp still.0 in
        let by_tcp = is_ready_left xs fds s.sock1_tcp still.1 in
        serve-Keeps d to_buffer tdb p (Waits s) SameUser-Waits t left (Waits s)
          (user_datagram-Waits t left by_udp by_tcp) (accept_user-Waits t left by_udp by_tcp)
          (user_stream-Waits t left by_udp by_tcp) (finish-Waits t) u)

    -- 10 seconds after the user was heard a round ends the session before it waits.
    late-Stops :
        (t : Turn d to_buffer tdb) (u : Session d to_buffer)
        → s.last_pkt1 + 10_000_000 < t.began
        → Waits s u
        → Stops (turn d to_buffer tdb p t u)
    unfolding turn check_user
    late-Stops t u late h =
        let dropped = take_drops-SameUser d to_buffer tdb p t (λ v. ⊥) u in
        let stops =
          After-bind (λ v. ⊥) (SameUser d to_buffer u) (λ v. ⊥) _ (check_user d to_buffer tdb p t)
            dropped (λ v same. let w = SameUser-Waits u v h same in ground (arith, w)) in
        After-bind (λ v. ⊥) (λ v. ⊥) (λ v. ⊥) _ _ stops (λ v f. absurd f)

    turns-Stops :
        (ts : List (Turn d to_buffer tdb)) (t : Turn d to_buffer tdb) (u : Session d to_buffer)
        → AllUnheard s ts
        → s.last_pkt1 + 10_000_000 < t.began
        → Waits s u
        → Stops (turns d to_buffer tdb p (ts ++ t ∷ []) u)
    unfolding turns
    turns-Stops [] t u quiet late h =
        Keeps-resume (λ v. ⊥) (λ v. ⊥) (turn d to_buffer tdb p t u) _ (late-Stops t u late h)
          (λ v f. absurd f)
    turns-Stops (q ∷ ts) t u quiet late h =
        Keeps-resume (Waits s) (λ v. ⊥) (turn d to_buffer tdb p q u) _ (turn-Waits q quiet.0 u h)
          (λ v w. turns-Stops ts t v quiet.1 late w)

  -- A session with a user ends at the latest with the first round that starts more than 10 seconds
  -- after the user was last heard, whatever the engineers send in the rounds before it, the web
  -- interface asks for and the sockets answer: it is then not running.
  pub silence_ends :
      (s : Session d to_buffer) (ts : List (Turn d to_buffer tdb)) (t : Turn d to_buffer tdb)
      → s.have_conn1 ≡ true
      → AllUnheard s ts
      → s.last_pkt1 + 10_000_000 < t.began
      → Stops (turns d to_buffer tdb p (ts ++ t ∷ []) s)
  silence_ends s ts t conn quiet late = turns-Stops s ts t s quiet late (ground arith)
