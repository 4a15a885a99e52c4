-- ===== src/Ports/Forks.antt =====
-- What becomes of a port pair whose fork() failed.
use udpproxy.Prelude.{
  ℕ, ◌≡◌, refl, ◌∙◌, inl, inr, false, Option, none, some, List, [], ◌∷◌, map, arith, ◌==◌,
  if◌then◌else◌, Bool-cases,
}
use udpproxy.Ports.{
  Pid, fork_failed, Port, Effect, Net, Config, open_sockets, close_sockets, refresh_port,
  refresh_first, behind, or_new, new_port, upsert_port, upsert_all, unmark, drop_unseen,
  drop_all_unseen, reopen, reload_ports, exited, reap_port,
}
use udpproxy.Ports.Rounds.{
  Parent, Fork, Round, events, timeout, fork_cleanup_child, reap, check_children, handle_connection,
  accept_event, accept_events, reload_if, round, run_rounds,
}

-- The pid of the first entry with this port2.
abbrev pub pid_of : ℕ → List Port → Option Pid
pid_of n [] = none
pid_of n (p ∷ ps) = if p.port2 == n then some p.pid else pid_of n ps

-- The entry for `n` is marked as having a failed fork for a child.
abbrev pub IsStuck : ℕ → List Port → Type 0
IsStuck n ps = pid_of n ps ≡ some fork_failed

pid_of-map :
    (g : Port → Port) (n : ℕ) (ps : List Port)
    → ((p : Port) → ((g p).port2 ≡ p.port2) × ((g p).pid ≡ p.pid))
    → pid_of n (map g ps) ≡ pid_of n ps
pid_of-map g n [] same = refl
pid_of-map g n (p ∷ ps) same = rw ((same p).0, (same p).1, pid_of-map g n ps same)

pub refresh_port-pid :
    (net : Net) (c : Config) (p : Port)
    → ((refresh_port net c p).0.port2 ≡ p.port2) × ((refresh_port net c p).0.pid ≡ p.pid)
unfolding refresh_port open_sockets close_sockets
refresh_port-pid net c p = ground arith

abbrev SamePid : ℕ → ℕ → List Port → Option (List Port × List Effect) → Type 0
SamePid port2 n ps none = port2 ≡ n → pid_of n ps ≡ none
SamePid port2 n ps (some r) = pid_of n r.0 ≡ pid_of n ps

behind-SamePid :
    (port2 n : ℕ) (p : Port) (ps : List Port) (r : Option (List Port × List Effect))
    → (p.port2 == port2) ≡ false
    → SamePid port2 n ps r
    → SamePid port2 n (p ∷ ps) (behind p r)
behind-SamePid port2 n p ps none ne h = λ e. ground (arith, h e)
behind-SamePid port2 n p ps (some r) ne h = rw h

refresh_first-SamePid :
    (net : Net) (port2 n : ℕ) (c : Config) (ps : List Port)
    → SamePid port2 n ps (refresh_first net port2 c ps)
unfolding refresh_first
refresh_first-SamePid net port2 n c [] = λ e. refl
refresh_first-SamePid net port2 n c (p ∷ ps) = elim (Bool-cases (p.port2 == port2)) [
  | inl e ↦ let r = refresh_port-pid net c p in rw (e, r.0, r.1)
  | inr e ↦ rw e (behind-SamePid port2 n p ps _ e (refresh_first-SamePid net port2 n c ps))
]

or_new-IsStuck :
    (net : Net) (port2 n : ℕ) (c : Config) (ps : List Port) (r : Option (List Port × List Effect))
    → SamePid port2 n ps r
    → IsStuck n ps
    → IsStuck n (or_new net port2 c ps r).0
unfolding new_port open_sockets
or_new-IsStuck net port2 n c ps none h s = ground arith
or_new-IsStuck net port2 n c ps (some r) h s = h ∙ s

upsert_all-IsStuck :
    (net : Net) (n : ℕ) (cs : List (ℕ × Config)) (ps : List Port)
    → IsStuck n ps
    → IsStuck n (upsert_all net cs ps).0
unfolding upsert_all upsert_port
upsert_all-IsStuck net n [] ps s = s
upsert_all-IsStuck net n ((port2, c) ∷ cs) ps s =
    upsert_all-IsStuck net n cs (upsert_port net port2 c ps).0
      (or_new-IsStuck net port2 n c ps _ (refresh_first-SamePid net port2 n c ps) s)

pub drop_unseen-map : (ps : List Port) → (drop_all_unseen ps).0 ≡ map (λ p. (drop_unseen p).0) ps
unfolding drop_all_unseen
drop_unseen-map [] = refl
drop_unseen-map (p ∷ ps) = rw (drop_unseen-map ps)

reload_ports-IsStuck :
    (net : Net) (n : ℕ) (cs : List (ℕ × Config)) (ps : List Port)
    → IsStuck n ps
    → IsStuck n (reload_ports net cs ps).0
unfolding reload_ports reopen drop_unseen unmark open_sockets close_sockets
reload_ports-IsStuck net n cs ps s =
    pid_of-map (reopen net) n _ (λ p. (ground arith, ground arith))
    ∙ (rw (drop_unseen-map (upsert_all net cs (map unmark ps)).0)
          (pid_of-map (λ p. (drop_unseen p).0) n _ (λ p. (ground arith, ground arith)))
        ∙ upsert_all-IsStuck net n cs (map unmark ps)
            (pid_of-map unmark n ps (λ p. (refl, refl)) ∙ s))

reap_port-IsStuck :
    (net : Net) (n pid : ℕ) (ps : List Port) → IsStuck n ps → IsStuck n (reap_port net pid ps).0
unfolding reap_port exited open_sockets
reap_port-IsStuck net n pid [] s = s
reap_port-IsStuck net n pid (p ∷ ps) s = ground (arith, reap_port-IsStuck net n pid ps)

reap-IsStuck :
    (net : Net) (n : ℕ) (s : Parent) (r : ℕ × Fork)
    → IsStuck n s.ports
    → IsStuck n (reap net s r).0.ports
unfolding reap fork_cleanup_child
reap-IsStuck net n s (pid, none) h = ground (arith, reap_port-IsStuck net n pid s.ports)
reap-IsStuck net n s (pid, some k) h = ground (arith, reap_port-IsStuck net n pid s.ports)

check_children-IsStuck :
    (net : Net) (n : ℕ) (rs : List (ℕ × Fork)) (s : Parent)
    → IsStuck n s.ports
    → IsStuck n (check_children net rs s).0.ports
unfolding check_children
check_children-IsStuck net n [] s h = h
check_children-IsStuck net n (r ∷ rs) s h =
    check_children-IsStuck net n rs (reap net s r).0 (reap-IsStuck net n s r h)

accept_event-IsStuck :
    (n : ℕ) (e : ℕ × Fork) (ps : List Port) → IsStuck n ps → IsStuck n (accept_event e ps)
unfolding accept_event handle_connection close_sockets
accept_event-IsStuck n (fd, none) [] s = s
accept_event-IsStuck n (fd, some k) [] s = s
accept_event-IsStuck n (fd, none) (p ∷ ps) s = ground (arith, accept_event-IsStuck n (fd, none) ps)
accept_event-IsStuck n (fd, some k) (p ∷ ps) s =
    ground (arith, accept_event-IsStuck n (fd, some k) ps)

accept_events-IsStuck :
    (n : ℕ) (es : List (ℕ × Fork)) (ps : List Port) → IsStuck n ps → IsStuck n (accept_events es ps)
unfolding accept_events
accept_events-IsStuck n [] ps s = s
accept_events-IsStuck n (e ∷ es) ps s =
    accept_events-IsStuck n es (accept_event e ps) (accept_event-IsStuck n e ps s)

round-IsStuck :
    (net : Net) (n : ℕ) (s : Parent) (r : Round)
    → IsStuck n s.ports
    → IsStuck n (round net s r).0.ports
unfolding round reload_if
round-IsStuck net n s (events es) h = accept_events-IsStuck n es s.ports h
round-IsStuck net n s (timeout reaped none) h = check_children-IsStuck net n reaped s h
round-IsStuck net n s (timeout reaped (some cs)) h =
    reload_ports-IsStuck net n cs _ (check_children-IsStuck net n reaped s h)

-- Once a fork() for a port pair has failed, its entry keeps the -1 as its child for ever: no events,
-- child exits or reloads clear it.
pub run_rounds-IsStuck :
    (n : ℕ) (s : Parent) (rs : List (Net × Round))
    → IsStuck n s.ports
    → IsStuck n (run_rounds s rs).ports
unfolding run_rounds
run_rounds-IsStuck n s [] h = h
run_rounds-IsStuck n s ((net, r) ∷ rs) h =
    run_rounds-IsStuck n (round net s r).0 rs (round-IsStuck net n s r h)
