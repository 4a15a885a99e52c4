-- ===== src/MainLoop/Watched.antt =====
-- What select leaves of the sockets that it was given.
use udpproxy.Prelude.{
  ℕ, ◌≡◌, refl, Bool, true, false, ◌&&◌, Option, none, some, List, ◌∷◌, ◌++◌, arith,
}
use udpproxy.Message.{Message, Dialect}
use udpproxy.MainLoop.{is_ready, has_fd, fd_list, Session, watched}

pub is_ready_left :
    (xs : List ℕ) (fds : ℕ → Bool) (fd : Option ℕ)
    → is_ready fds fd ≡ false
    → is_ready (λ x. has_fd xs x && fds x) fd ≡ false
is_ready_left xs fds none h = refl
is_ready_left xs fds (some fd) h = ground arith

has_fd-behind :
    (o : Option ℕ) (xs : List ℕ) (fd : ℕ) → has_fd xs fd ≡ true → has_fd (fd_list o ++ xs) fd ≡ true
has_fd-behind none xs fd h = h
has_fd-behind (some x) xs fd h = ground arith

abbrev left_of : (ℕ → Bool) → List ℕ → ℕ → Bool
left_of fds xs x = has_fd xs x && fds x

is_ready_first :
    (o : Option ℕ) (xs : List ℕ) (fds : ℕ → Bool)
    → is_ready fds o ≡ true
    → is_ready (left_of fds (fd_list o ++ xs)) o ≡ true
is_ready_first none xs fds h = h
is_ready_first (some fd) xs fds h =
    let here : has_fd (fd ∷ xs) fd ≡ true = ground arith in simp (here, h)

is_ready_behind :
    (o o' : Option ℕ) (xs : List ℕ) (fds : ℕ → Bool)
    → is_ready (left_of fds xs) o' ≡ true
    → is_ready (left_of fds (fd_list o ++ xs)) o' ≡ true
is_ready_behind o none xs fds h = h
is_ready_behind o (some fd) xs fds h =
    let parts : (has_fd xs fd ≡ true) × (fds fd ≡ true) = ground arith in
    simp (has_fd-behind o xs fd parts.0, parts.1)

module _ (d : Dialect) (to_buffer : Message → List ℕ) where
  -- The engineers' sockets are among those that select is given.
  pub watched-sock2_udp :
      (s : Session d to_buffer) (fds : ℕ → Bool)
      → is_ready fds s.sock2_udp ≡ true
      → is_ready (λ x. has_fd (watched d to_buffer s) x && fds x) s.sock2_udp ≡ true
  unfolding watched
  watched-sock2_udp s fds h =
      is_ready_behind s.sock1_udp s.sock2_udp _ fds (is_ready_first s.sock2_udp _ fds h)

  pub watched-sock2_listen :
      (s : Session d to_buffer) (fds : ℕ → Bool)
      → is_ready fds s.sock2_listen ≡ true
      → is_ready (λ x. has_fd (watched d to_buffer s) x && fds x) s.sock2_listen ≡ true
  unfolding watched
  watched-sock2_listen s fds h = is_ready_behind s.sock1_udp s.sock2_listen _ fds (
      is_ready_behind s.sock2_udp s.sock2_listen _ fds
        (is_ready_behind s.sock1_tcp s.sock2_listen _ fds (is_ready_first s.sock2_listen _ fds h)))
