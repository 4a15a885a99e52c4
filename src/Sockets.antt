-- ===== src/Sockets.antt =====
-- open_socket_in_udp and open_socket_in_tcp of util.cpp, and how open_sockets in supportproxy.cpp
-- calls them again for a socket that is not open. The list of a process's open descriptors is
-- explicit.
mod Leak
mod Tests
use udpproxy.Prelude.{ℕ, Bool, Option, none, some, List, [], ◌∷◌, if◌then◌else◌, is_some}

-- What the system answers to one try: socket(), bind() and listen().
pub record Try : Type 0 where
  pub fd : Option ℕ
  pub binds : Bool
  pub listens : Bool

-- What the caller gets, `none` for -1, and the descriptors that are open after it.
pub open_socket_in_udp : Try → List ℕ → Option ℕ × List ℕ
open_socket_in_udp t fds = elim t.fd [
  | none ↦ (none, fds)
  | some fd ↦ (if t.binds then some fd else none, fd ∷ fds)
]

pub open_socket_in_tcp : Try → List ℕ → Option ℕ × List ℕ
open_socket_in_tcp t fds = elim t.fd [
  | none ↦ (none, fds)
  | some fd ↦ (if t.binds then (if t.listens then some fd else none) else none, fd ∷ fds)
]

-- The tests of open_sockets for one socket of the port pair, each time that it is called.
pub open_again :
    (Try → List ℕ → Option ℕ × List ℕ) → List Try → Option ℕ × List ℕ → Option ℕ × List ℕ
open_again open_one [] r = r
open_again open_one (t ∷ ts) r = open_again open_one ts (if is_some r.0 then r else open_one t r.1)
