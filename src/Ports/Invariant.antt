-- ===== src/Ports/Invariant.antt =====
-- What holds of the parent's list of port pairs after any rounds of its loop.
use udpproxy.Prelude.{
  ℕ, ◌≡◌, refl, sym, ap, subst, inl, inr, true, not, ◌&&◌, none, some, List, [], ◌∷◌, arith,
  Bool-cases, All,
}
use udpproxy.Ports.{
  Port, Net, Config, open_sockets, close_sockets, is_idle, reap_port, exited, has_pid,
}
use udpproxy.Ports.Rounds.{
  Parent, Fork, Round, events, timeout, fork_cleanup_child, reap, check_children, handle_connection,
  accept_event, accept_events, round, start, run_rounds, reload_if, is_cleanup, owns_fd,
}
use udpproxy.Ports.Sound.{
  IsQuiet, port2s, AllDiffer, IsSound, upsert_all-IsSound, reload_ports-IsSound,
}

exited-IsQuiet :
    (net : Net) (pid : ℕ) (p : Port)
    → has_pid p.pid pid ≡ true
    → IsQuiet p
    → IsQuiet (exited net p) × ((exited net p).port2 ≡ p.port2)
unfolding exited open_sockets
exited-IsQuiet net pid p e q = ground arith

handle_connection-IsQuiet :
    (fork : Fork) (p : Port)
    → IsQuiet (handle_connection fork p) × ((handle_connection fork p).port2 ≡ p.port2)
unfolding handle_connection close_sockets
handle_connection-IsQuiet fork p = ground arith

reap_port-IsSound :
    (net : Net) (pid : ℕ) (ps : List Port)
    → All IsQuiet ps
    → All IsQuiet (reap_port net pid ps).0 × (port2s (reap_port net pid ps).0 ≡ port2s ps)
unfolding reap_port
reap_port-IsSound net pid [] h = (tt, refl)
reap_port-IsSound net pid (p ∷ ps) h = elim (Bool-cases (has_pid p.pid pid)) [
  | inl e ↦ let r = exited-IsQuiet net pid p e h.0 in rw e ((r.0, h.1), ap (λ n. n ∷ port2s ps) r.1)
  | inr e ↦ let r = reap_port-IsSound net pid ps h.1 in rw e ((h.0, r.0), ap (◌∷◌ p.port2) r.1)
]

accept_event-IsSound :
    (e : ℕ × Fork) (ps : List Port)
    → All IsQuiet ps
    → All IsQuiet (accept_event e ps) × (port2s (accept_event e ps) ≡ port2s ps)
unfolding accept_event
accept_event-IsSound (fd, fork) [] h = (tt, refl)
accept_event-IsSound (fd, fork) (p ∷ ps) h =
    elim (Bool-cases ((is_idle p.pid && not p.removed) && owns_fd p fd)) [
      | inl e ↦
          let r = handle_connection-IsQuiet fork p in rw e ((r.0, h.1), ap (λ n. n ∷ port2s ps) r.1)
      | inr e ↦
          let r = accept_event-IsSound (fd, fork) ps h.1 in rw e ((h.0, r.0), ap (◌∷◌ p.port2) r.1)
    ]

of_same : (ps qs : List Port) → All IsQuiet qs × (port2s qs ≡ port2s ps) → IsSound ps → IsSound qs
of_same ps qs h v = record { differ = subst AllDiffer (sym h.1) v.differ; quiet = h.0 }

accept_events-IsSound :
    (es : List (ℕ × Fork)) (ps : List Port) → IsSound ps → IsSound (accept_events es ps)
unfolding accept_events
accept_events-IsSound [] ps v = v
accept_events-IsSound (e ∷ es) ps v =
    accept_events-IsSound es (accept_event e ps)
      (of_same ps _ (accept_event-IsSound e ps v.quiet) v)

fork_cleanup_child-ports : (fork : Fork) (s : Parent) → (fork_cleanup_child fork s).ports ≡ s.ports
unfolding fork_cleanup_child
fork_cleanup_child-ports none s = refl
fork_cleanup_child-ports (some pid) s = refl

reap-IsSound :
    (net : Net) (s : Parent) (r : ℕ × Fork) → IsSound s.ports → IsSound (reap net s r).0.ports
unfolding reap
reap-IsSound net s (pid, fork) v = elim (Bool-cases (is_cleanup s.cleanup_child pid)) [
  | inl e ↦
      rw e
        (subst IsSound (sym (fork_cleanup_child-ports fork (record s { cleanup_child = none }))) v)
  | inr e ↦ rw e (of_same s.ports _ (reap_port-IsSound net pid s.ports v.quiet) v)
]

check_children-IsSound :
    (net : Net) (rs : List (ℕ × Fork)) (s : Parent)
    → IsSound s.ports
    → IsSound (check_children net rs s).0.ports
unfolding check_children
check_children-IsSound net [] s v = v
check_children-IsSound net (r ∷ rs) s v =
    check_children-IsSound net rs (reap net s r).0 (reap-IsSound net s r v)

round-IsSound :
    (net : Net) (s : Parent) (r : Round) → IsSound s.ports → IsSound (round net s r).0.ports
unfolding round reload_if
round-IsSound net s (events es) v = accept_events-IsSound es s.ports v
round-IsSound net s (timeout reaped none) v = check_children-IsSound net reaped s v
round-IsSound net s (timeout reaped (some cs)) v =
    reload_ports-IsSound net cs _ (check_children-IsSound net reaped s v)

run_from-IsSound :
    (s : Parent) (rs : List (Net × Round)) → IsSound s.ports → IsSound (run_rounds s rs).ports
unfolding run_rounds
run_from-IsSound s [] v = v
run_from-IsSound s ((net, r) ∷ rs) v =
    run_from-IsSound (round net s r).0 rs (round-IsSound net s r v)

-- From the start with any database, after any rounds of events, child exits and reloads, whichever
-- sockets open in each: no two entries of the parent's list have the same port2, and an entry that has
-- a child (or a failed fork) or was removed has no listening socket open in the parent.
pub run_rounds-IsSound :
    (net : Net) (configs : List (ℕ × Config)) (fork : Fork) (rs : List (Net × Round))
    → IsSound (run_rounds (start net configs fork) rs).ports
unfolding start
run_rounds-IsSound net configs fork rs = run_from-IsSound _ rs (
    subst IsSound (sym (fork_cleanup_child-ports fork _))
      (upsert_all-IsSound net configs [] (record { differ = tt; quiet = tt })))
