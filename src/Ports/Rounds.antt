-- ===== src/Ports/Rounds.antt =====
-- The rounds of the parent process in supportproxy.cpp: its children and the cleanup child
-- (check_children, fork_cleanup_child, handle_connection), wait_connection and main.
use udpproxy.Prelude.{
  ℕ, Bool, false, not, ◌&&◌, ◌||◌, Option, none, some, List, [], ◌∷◌, ◌++◌, ◌==◌, if◌then◌else◌,
}
use udpproxy.Ports.{
  Port, Effect, Net, Config, is_idle, upsert_all, close_sockets, fork_failed, child, reap_port,
  reload_ports,
}

pub record Parent : Type 0 where
  pub ports : List Port
  pub cleanup_child : Option ℕ  -- `none`: 0

-- What fork() returns in the parent.
abbrev pub Fork : Type 0
Fork = Option ℕ

unfoldable pub fork_cleanup_child : Fork → Parent → Parent
fork_cleanup_child none s = s
fork_cleanup_child (some pid) s = record s { cleanup_child = some pid }

abbrev pub is_cleanup : Option ℕ → ℕ → Bool
is_cleanup none pid = false
is_cleanup (some n) pid = n == pid

-- One round of the waitpid loop, with the answer of fork() if the cleanup child is started again.
unfoldable pub reap : Net → Parent → ℕ × Fork → Parent × List Effect
reap net s (pid, fork) =
    if is_cleanup s.cleanup_child pid
    then (fork_cleanup_child fork (record s { cleanup_child = none }), [])
    else (let r = reap_port net pid s.ports in (record s { ports = r.0 }, r.1))

-- `reaped` is what waitpid returns in turn.
unfoldable pub check_children : Net → List (ℕ × Fork) → Parent → Parent × List Effect
check_children net [] s = (s, [])
check_children net (r ∷ rs) s =
    let one = reap net s r in let rest = check_children net rs one.0 in (rest.0, one.1 ++ rest.1)

-- The parent's side of handle_connection.
unfoldable pub handle_connection : Fork → Port → Port
handle_connection none p = close_sockets (record p { pid = fork_failed })
handle_connection (some pid) p = close_sockets (record p { pid = child pid })

abbrev is_fd : Option ℕ → ℕ → Bool
is_fd none fd = false
is_fd (some n) fd = n == fd

unfoldable pub owns_fd : Port → ℕ → Bool
owns_fd p fd =
    (is_fd p.sockets.sock1_udp fd || is_fd p.sockets.sock2_udp fd)
    || (is_fd p.sockets.sock1_tcp fd || is_fd p.sockets.sock2_listen fd)

-- An event of epoll_wait: the first waiting port pair with this descriptor gets a child.
unfoldable pub accept_event : ℕ × Fork → List Port → List Port
unfolding owns_fd
accept_event (fd, fork) [] = []
accept_event (fd, fork) (p ∷ ps) =
    let rest = accept_event (fd, fork) ps in
    if (is_idle p.pid && not p.removed) && owns_fd p fd
    then handle_connection fork p ∷ ps
    else p ∷ rest

unfoldable pub accept_events : List (ℕ × Fork) → List Port → List Port
accept_events [] ps = ps
accept_events (e ∷ es) ps = accept_events es (accept_event e ps)

-- A round of wait_connection: events, or a timeout, with a reload every 5 s.
pub data Round : Type 0 where
  events : List (ℕ × Fork) → Round
  timeout : List (ℕ × Fork) → Option (List (ℕ × Config)) → Round

unfoldable pub reload_if : Net → Option (List (ℕ × Config)) → Parent → Parent × List Effect
reload_if net none s = (s, [])
reload_if net (some configs) s =
    let r = reload_ports net configs s.ports in (record s { ports = r.0 }, r.1)

unfoldable pub round : Net → Parent → Round → Parent × List Effect
unfolding reload_if
round net s (events es) = (record s { ports = accept_events es s.ports }, [])
round net s (timeout reaped reload) =
    let checked = check_children net reaped s in
    let reloaded = reload_if net reload checked.0 in (reloaded.0, checked.1 ++ reloaded.1)

-- What main() sets up before it waits: the port pairs of the database, then the cleanup child.
unfoldable pub start : Net → List (ℕ × Config) → Fork → Parent
start net configs fork =
    fork_cleanup_child fork (record { ports = (upsert_all net configs []).0; cleanup_child = none })

-- In each round the sockets that it opens get answers of their own.
unfoldable pub run_rounds : Parent → List (Net × Round) → Parent
run_rounds s [] = s
run_rounds s ((net, r) ∷ rs) = run_rounds (round net s r).0 rs
