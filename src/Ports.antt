-- ===== src/Ports.antt =====
-- The parent process of supportproxy.cpp: the list of port pairs, their listening sockets and their
-- children. A socket is `none` where the source has -1. What the system answers is an argument; what
-- the parent does to other processes and to connections.tdb is a list of effects.
pub mod Rounds
mod Sound
mod Invariant
mod Reload
mod Forks
mod Kills
mod Tests
use udpproxy.Prelude.{
  ℕ, ◌%◌, Bool, true, false, Option, none, some, List, [], ◌∷◌, ◌++◌, map, ltb, ◌==◌, if◌then◌else◌,
  length,
}
use udpproxy.Database.Tdb.{Bytes}
use udpproxy.Database.Bytes.{of_le}
use udpproxy.Database.KeyEntry.{keyentry_min_size, load_entry}

-- `pid`: 0, the process of a child, or the -1 of a fork() that failed.
pub data Pid : Type 0 where
  no_child fork_failed : Pid
  child : ℕ → Pid

pub record Sockets : Type 0 where
  pub sock1_udp : Option ℕ
  pub sock2_udp : Option ℕ
  pub sock1_tcp : Option ℕ
  pub sock2_listen : Option ℕ

-- struct listen_port.
pub record Port : Type 0 where
  pub port1 : ℕ
  pub port2 : ℕ
  pub sockets : Sockets
  pub pid : Pid
  pub flags : ℕ
  pub fc_sysid : ℕ
  pub seen : Bool
  pub removed : Bool

pub data Effect : Type 0 where
  kill_term : Pid → Effect
  conn_remove_port2 : ℕ → Effect

-- What open_socket_in_udp and open_socket_in_tcp answer for a port.
pub record Net : Type 0 where
  pub udp : ℕ → Option ℕ
  pub tcp : ℕ → Option ℕ

abbrev pub no_sockets : Sockets
no_sockets = record { sock1_udp = none; sock2_udp = none; sock1_tcp = none; sock2_listen = none }

abbrev or_open : Option ℕ → Option ℕ → Option ℕ
or_open none fresh = fresh
or_open (some fd) fresh = some fd

pub open_sockets : Net → Port → Port
open_sockets net p = record p {
  sockets = record {
    sock1_udp = or_open p.sockets.sock1_udp (net.udp p.port1);
    sock2_udp = or_open p.sockets.sock2_udp (net.udp p.port2);
    sock1_tcp = or_open p.sockets.sock1_tcp (net.tcp p.port1);
    sock2_listen = or_open p.sockets.sock2_listen (net.tcp p.port2);
  };
}

pub close_sockets : Port → Port
close_sockets p = record p { sockets = no_sockets }

-- `p->pid == 0`.
abbrev pub is_idle : Pid → Bool
is_idle no_child = true
is_idle fork_failed = false
is_idle (child n) = false

open_if_idle : Net → Port → Port
open_if_idle net p = if is_idle p.pid then open_sockets net p else p

-- `if (p->pid != 0) kill(p->pid, SIGTERM)`.
abbrev kill_child : Pid → List Effect
kill_child no_child = []
kill_child fork_failed = kill_term fork_failed ∷ []
kill_child (child n) = kill_term (child n) ∷ []

-- What a record of keys.tdb says of a port pair.
pub record Config : Type 0 where
  pub port1 : ℕ
  pub flags : ℕ
  pub fc_sysid : ℕ

pub configured : Config → Port → Port
configured c p = record p { port1 = c.port1; flags = c.flags; fc_sysid = c.fc_sysid }

-- The body of the loop of upsert_port, at the entry with this port2.
pub refresh_port : Net → Config → Port → Port × List Effect
unfolding open_if_idle configured
refresh_port net c p =
    let q = record p { seen = true } in
    if q.removed
    then (open_if_idle net (configured c (record q { removed = false })), [])
    else if q.port1 == c.port1
    then (configured c q, [])
    else (open_if_idle net (configured c (close_sockets q)), kill_child q.pid)

abbrev pub behind : Port → Option (List Port × List Effect) → Option (List Port × List Effect)
behind p none = none
behind p (some r) = some (p ∷ r.0, r.1)

-- The loop: `none` where no entry has this port2.
pub refresh_first : Net → ℕ → Config → List Port → Option (List Port × List Effect)
refresh_first net port2 c [] = none
refresh_first net port2 c (p ∷ ps) =
    let rest = refresh_first net port2 c ps in
    if p.port2 == port2
    then (let r = refresh_port net c p in some (r.0 ∷ ps, r.1))
    else behind p rest

pub new_port : ℕ → Config → Port
new_port port2 c = record {
  port1 = c.port1;
  port2 = port2;
  sockets = no_sockets;
  pid = no_child;
  flags = c.flags;
  fc_sysid = c.fc_sysid;
  seen = true;
  removed = false;
}

-- A port pair that is new goes to the front of the list, and its sockets are opened.
abbrev pub or_new :
    Net → ℕ → Config → List Port → Option (List Port × List Effect) → List Port × List Effect
or_new net port2 c ps none = (open_sockets net (new_port port2 c) ∷ ps, [])
or_new net port2 c ps (some r) = r

pub upsert_port : Net → ℕ → Config → List Port → List Port × List Effect
upsert_port net port2 c ps = or_new net port2 c ps (refresh_first net port2 c ps)

-- handle_record's reading of a record: an int key, and data of at least the old size. Unlike
-- db_load_key it does not look at the magic.
pub read_config : Bytes × Bytes → Option (ℕ × Config)
read_config (key, value) =
    if length key == 4
    then (if ltb (length value) keyentry_min_size
        then none
        else (let k = load_entry value in
            some (
              of_le key,
              record { port1 = k.port1; flags = k.flags; fc_sysid = k.fc_sysid % 256 },
            )))
    else none

pub read_configs : List (Bytes × Bytes) → List (ℕ × Config)
read_configs [] = []
read_configs (r ∷ rs) = elim (read_config r) [
  | none ↦ read_configs rs
  | some c ↦ c ∷ read_configs rs
]

-- tdb_traverse with handle_record.
pub upsert_all : Net → List (ℕ × Config) → List Port → List Port × List Effect
upsert_all net [] ps = (ps, [])
upsert_all net ((port2, c) ∷ cs) ps =
    let r = upsert_port net port2 c ps in
    let rest = upsert_all net cs r.0 in (rest.0, r.1 ++ rest.1)

pub unmark : Port → Port
unmark p = record p { seen = false }

-- One round of the loop over the entries that the traversal did not see.
pub drop_unseen : Port → Port × List Effect
drop_unseen p = if p.seen then (p, []) else if p.removed then (p, []) else (
  close_sockets (record p { removed = true }),
  kill_child p.pid ++ conn_remove_port2 p.port2 ∷ [],
)

pub drop_all_unseen : List Port → List Port × List Effect
drop_all_unseen [] = ([], [])
drop_all_unseen (p ∷ ps) =
    let r = drop_unseen p in let rest = drop_all_unseen ps in (r.0 ∷ rest.0, r.1 ++ rest.1)

-- One round of the last loop of reload_ports.
pub reopen : Net → Port → Port
unfolding open_if_idle
reopen net p = if p.removed then p else open_if_idle net p

-- `records` is what tdb_traverse visits; the process ends where the database does not open.
pub reload_ports : Net → List (ℕ × Config) → List Port → List Port × List Effect
reload_ports net configs ps =
    let upserted = upsert_all net configs (map unmark ps) in
    let dropped = drop_all_unseen upserted.0 in
    (map (reopen net) dropped.0, upserted.1 ++ dropped.1)

-- `p->pid == pid` for a pid that waitpid returned.
abbrev pub has_pid : Pid → ℕ → Bool
has_pid no_child n = false
has_pid fork_failed n = false
has_pid (child m) n = m == n

pub exited : Net → Port → Port
exited net p = let q = record p { pid = no_child } in if q.removed then q else open_sockets net q

-- check_children for one pid: the first port pair with this child.
pub reap_port : Net → ℕ → List Port → List Port × List Effect
unfolding exited
reap_port net pid [] = ([], [])
reap_port net pid (p ∷ ps) =
    let rest = reap_port net pid ps in
    if has_pid p.pid pid
    then (exited net p ∷ ps, conn_remove_port2 p.port2 ∷ [])
    else (p ∷ rest.0, rest.1)
