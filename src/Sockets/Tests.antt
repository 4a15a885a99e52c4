-- ===== src/Sockets/Tests.antt =====
-- A port that another program holds.
use udpproxy.Prelude.{ℕ, ◌+◌, ◌≡◌, refl, false, none, some, [], ◌∷◌, length}
use udpproxy.Sockets.{Try, open_socket_in_udp, open_socket_in_tcp, open_again}
use udpproxy.Sockets.Leak.{open_again_leaks}

abbrev taken : ℕ → Try
taken fd = record { fd = some fd; binds = false; listens = false }

open_again_leaks_example :
    let u = open_again open_socket_in_udp (taken 5 ∷ taken 6 ∷ []) (none, 3 ∷ []) in
    let r = open_again open_socket_in_tcp (taken 7 ∷ []) (none, u.1) in
    (u.0 ≡ none) × (r.0 ≡ none) × (length r.1 ≡ 1 + 2 + 1)
open_again_leaks_example =
    open_again_leaks (taken 5 ∷ taken 6 ∷ []) (taken 7 ∷ []) (3 ∷ [])
      ((refl, refl), ((refl, refl), tt)) ((refl, refl), tt)
