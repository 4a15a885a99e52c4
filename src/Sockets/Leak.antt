-- ===== src/Sockets/Leak.antt =====
-- Descriptors of sockets that could not be bound.
use udpproxy.Prelude.{
  ℕ, suc, ◌+◌, ◌≡◌, refl, sym, subst, true, false, ◌&&◌, Option, none, List, [], ◌∷◌, arith,
  is_some, length, All, All-imp,
}
use udpproxy.Sockets.{Try, open_socket_in_udp, open_socket_in_tcp, open_again}

-- The socket is made, and its port is not to be had.
abbrev pub IsTaken : Try → Type 0
IsTaken t = (is_some t.fd ≡ true) × ((t.binds && t.listens) ≡ false)

-- For UDP it is bind() that fails.
abbrev pub IsTakenUdp : Try → Type 0
IsTakenUdp t = (is_some t.fd ≡ true) × (t.binds ≡ false)

abbrev Leaks : (Try → List ℕ → Option ℕ × List ℕ) → Try → Type 0
Leaks open_one t =
    (fds : List ℕ) → ((open_one t fds).0 ≡ none) × (length (open_one t fds).1 ≡ length fds + 1)

open_again-Leaks :
    (open_one : Try → List ℕ → Option ℕ × List ℕ) (ts : List Try) (fds : List ℕ)
    → All (Leaks open_one) ts
    → let r = open_again open_one ts (none, fds) in
      (r.0 ≡ none) × (length r.1 ≡ length fds + length ts)
unfolding open_again
open_again-Leaks open_one [] fds all = (refl, omega arith)
open_again-Leaks open_one (t ∷ ts) fds all =
    let one = all.0 fds in
    let rest = open_again-Leaks open_one ts (open_one t fds).1 all.1 in
    let same : open_one t fds ≡ (none, (open_one t fds).1) = λ i. (one.0 i, (open_one t fds).1) in
    subst
      (λ r.
        ((open_again open_one ts r).0 ≡ none)
        × (length (open_again open_one ts r).1 ≡ length fds + suc (length ts)))
      (sym same) (rest.0, omega (arith, rest.1, one.1))

udp-Leaks : (t : Try) → IsTakenUdp t → Leaks open_socket_in_udp t
unfolding open_socket_in_udp
udp-Leaks t h fds = ground (arith, h)

tcp-Leaks : (t : Try) → IsTaken t → Leaks open_socket_in_tcp t
unfolding open_socket_in_tcp
tcp-Leaks t h fds = ground (arith, h)

-- While the port of a pair is taken, each call of open_sockets leaves the pair without the socket and
-- the process with one more open descriptor, for UDP and for TCP.
pub open_again_leaks :
    (udp_tries tcp_tries : List Try) (fds : List ℕ)
    → All IsTakenUdp udp_tries
    → All IsTaken tcp_tries
    → let u = open_again open_socket_in_udp udp_tries (none, fds) in
      let r = open_again open_socket_in_tcp tcp_tries (none, u.1) in
      (u.0 ≡ none) × (r.0 ≡ none) × (length r.1 ≡ length fds + length udp_tries + length tcp_tries)
open_again_leaks udp_tries tcp_tries fds hu ht =
    let u = open_again open_socket_in_udp udp_tries (none, fds) in
    let a =
      open_again-Leaks open_socket_in_udp udp_tries fds
        (All-imp IsTakenUdp (Leaks open_socket_in_udp) udp_tries udp-Leaks hu) in
    let b =
      open_again-Leaks open_socket_in_tcp tcp_tries u.1
        (All-imp IsTaken (Leaks open_socket_in_tcp) tcp_tries tcp-Leaks ht) in
    (a.0, b.0, omega (arith, a.1, b.1))
