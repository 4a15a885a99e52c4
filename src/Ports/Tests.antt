-- ===== src/Ports/Tests.antt =====
-- Runs of the parent process on a concrete database.
use udpproxy.Prelude.{ℕ, ◌+◌, ◌≡◌, refl, true, false, none, some, List, [], ◌∷◌, arith}
use mathlib.Core.List.{Memᴰ}
use udpproxy.Ports.{
  fork_failed, Port, kill_term, Net, Config, new_port, reload_ports, open_sockets, close_sockets,
}
use udpproxy.Ports.Rounds.{Parent, Round, events, timeout, handle_connection, start, run_rounds}
use udpproxy.Ports.Invariant.{run_rounds-IsSound}
use udpproxy.Ports.Sound.{IsSound}
use udpproxy.Ports.Reload.{live_of, latest, reload_ports_refines}
use udpproxy.Ports.Forks.{IsStuck, run_rounds-IsStuck}
use udpproxy.Ports.Kills.{reload_ports_kills_all}

-- Every socket that is asked for opens.
abbrev net : Net
net = record { udp = λ port. some (port + 1); tcp = λ port. some (port + 2) }

abbrev first_config : Config
first_config = record { port1 = 14550; flags = 0; fc_sysid = 0 }

abbrev second_config : Config
second_config = record { port1 = 14551; flags = 4; fc_sysid = 1 }

abbrev database : List (ℕ × Config)
database = (10006, first_config) ∷ (10007, second_config) ∷ []

-- A user connects, its child exits, and meanwhile the first port pair is taken out of the database.
-- No socket opens in the second round.
abbrev closed_net : Net
closed_net = record { udp = λ port. none; tcp = λ port. none }

abbrev morning : List (Net × Round)
morning =
    (net, events ((14551, some 400) ∷ (14552, some 401) ∷ []))
    ∷ (closed_net, timeout ((400, none) ∷ []) (some ((10007, first_config) ∷ [])))
    ∷ (net, events ((14551, none) ∷ []))
    ∷ []

run_rounds-IsSound_example : IsSound (run_rounds (start net database (some 399)) morning).ports
run_rounds-IsSound_example = run_rounds-IsSound net database (some 399) morning

-- The fork for the first port pair has failed.
abbrev stuck : List Port
stuck = handle_connection none (open_sockets net (new_port 10006 first_config)) ∷ []

reload_ports_refines_example :
    live_of 10007 (reload_ports net database stuck).0 ≡ latest 10007 database none
reload_ports_refines_example = reload_ports_refines net database stuck 10007

abbrev stuck_parent : Parent
stuck_parent = record { ports = stuck; cleanup_child = none }

stuck_parent-IsStuck : IsStuck 10006 stuck
unfolding handle_connection open_sockets new_port close_sockets
stuck_parent-IsStuck = refl

run_rounds-IsStuck_example : IsStuck 10006 (run_rounds stuck_parent morning).ports
run_rounds-IsStuck_example = run_rounds-IsStuck 10006 stuck_parent morning stuck_parent-IsStuck

abbrev stuck_port : Port
stuck_port = record {
  port1 = 14550;
  port2 = 10006;
  sockets = record { sock1_udp = none; sock2_udp = none; sock1_tcp = none; sock2_listen = none };
  pid = fork_failed;
  flags = 0;
  fc_sysid = 0;
  seen = true;
  removed = false;
}

reload_ports_kills_all_example :
    Memᴰ (kill_term fork_failed) (reload_ports net ((10007, first_config) ∷ []) (stuck_port ∷ [])).1
reload_ports_kills_all_example =
    reload_ports_kills_all net 10006 ((10007, first_config) ∷ []) (stuck_port ∷ []) stuck_port refl
      refl refl ((λ e. omega (arith, e)), tt)
