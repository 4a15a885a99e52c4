-- ===== src/Slots.antt =====
-- The support engineers' connections of main_loop in supportproxy.cpp: the 100 slots of conn2, and
-- the two counters, uint8_t, that go with them. The MAVLink object of a slot is not part of this
-- state: what its send_message answers is an argument. Times are in microseconds where the source
-- has seconds in a double.
pub mod Admission
pub mod Leak
pub mod Crowd
mod Forward
pub mod Reach
mod Used
mod Counted
mod Tests
use udpproxy.Prelude.{
  ℕ, zero, suc, ◌+◌, ◌%◌, ◌^◌, Bool, false, ◌&&◌, Option, none, some, List, [], ◌∷◌, ltb, ◌==◌,
  if◌then◌else◌, is_some,
}

abbrev pub max_comm2_links : ℕ
max_comm2_links = 100

-- uint8_t arithmetic.
abbrev pub inc8 : ℕ → ℕ
inc8 n = (n + 1) % 256

abbrev pub dec8 : ℕ → ℕ
dec8 n = (n + 255) % 256

-- A sockaddr_in as far as it is compared, and its length.
pub record Address : Type 0 where
  pub ip : ℕ
  pub port : ℕ
  pub len : ℕ

-- class Connection2.
pub record Slot : Type 0 where
  pub sock : Option ℕ
  pub used : Bool
  pub tcp_active : Bool
  pub has_ws : Bool
  pub from : Address
  pub is_udp : Bool
  pub last_pkt : ℕ
  pub connected_at : ℕ
  pub rx_msgs : ℕ
  pub tx_msgs : ℕ

pub record Table : Type 0 where
  pub slots : List Slot
  pub conn2_count : ℕ
  pub max_conn2_count : ℕ

-- Connection2::close.
unfoldable pub close_slot : Slot → Slot
close_slot s = record s {
  sock = none;
  tcp_active = false;
  used = false;
  has_ws = false;
  connected_at = 0;
  rx_msgs = 0;
  tx_msgs = 0;
}

abbrev pub udp_timeout : ℕ
udp_timeout = 10_000_000

-- "check for dead UDP conn2", for one slot.
pub expire_slot : ℕ → Slot → Slot
expire_slot now s =
    if (s.used && s.is_udp) && ltb (s.last_pkt + udp_timeout) now then close_slot s else s

-- A loop over the first `limit` slots.
pub on_first : ℕ → (Slot → Slot) → List Slot → List Slot
on_first zero f ss = ss
on_first (suc limit) f [] = []
on_first (suc limit) f (s ∷ ss) = f s ∷ on_first limit f ss

-- The counters stay as they are.
pub expire_udp : ℕ → Table → Table
expire_udp now t = record t { slots = on_first t.max_conn2_count (expire_slot now) t.slots }

-- "BUG: max_conn2_count": the process exits.
pub is_bug : Table → Bool
is_bug t = ltb max_comm2_links t.max_conn2_count

-- What follows c2.close() where an engineer's TCP connection has ended or a message could not be
-- sent: the counters of the table.
pub count_closed : Table → Table
count_closed t = record t {
  max_conn2_count =
      if t.conn2_count == t.max_conn2_count then dec8 t.max_conn2_count else t.max_conn2_count;
  conn2_count = dec8 t.conn2_count;
}

-- How the user is connected decides the body of the forward loop.
pub data UserSide : Type 0 where
  user_udp user_tcp : UserSide

pub data Sent : Type 0 where
  untouched delivered closed : Sent

-- uint32_t.
unfoldable pub count_tx : Slot → Slot
count_tx s = record s { tx_msgs = (s.tx_msgs + 1) % 2 ^ 32 }

-- What one round does to its slot. With a UDP user, TCP slots are closed on a failed send and UDP
-- slots are not; with a TCP user, all are.
pub outcome : UserSide → Bool → Slot → Sent
outcome user_udp sent s =
    if s.used
    then (if s.is_udp
        then delivered
        else if is_some s.sock
        then (if sent then delivered else closed)
        else untouched)
    else untouched
outcome user_tcp sent s = if s.used then (if sent then delivered else closed) else untouched

pub after_send : Sent → Slot → Slot
after_send untouched s = s
after_send delivered s = count_tx s
after_send closed s = close_slot s

abbrev pub count_sent : Sent → Table → Table
count_sent untouched t = t
count_sent delivered t = t
count_sent closed t = count_closed t

-- `for (i = 0; i < max_conn2_count; i++)` from slot `i` on, where the body may lower the bound. The
-- table carries the counters; its slots are not used. `sent` is what send_message answers. The loop
-- stops behind the last slot.
pub forward_from : UserSide → (ℕ → Bool) → ℕ → List Slot → Table → List Slot × Table
forward_from user sent i [] t = ([], t)
forward_from user sent i (s ∷ ss) t =
    let result = outcome user (sent i) s in
    let rest = forward_from user sent (i + 1) ss (count_sent result t) in
    if ltb i t.max_conn2_count then (after_send result s ∷ rest.0, rest.1) else (s ∷ ss, t)

-- A message of the user, forwarded to the engineers.
pub forward : UserSide → (ℕ → Bool) → Table → Table
forward user sent t = let r = forward_from user sent 0 t.slots t in record (r.1) { slots = r.0 }

-- The first slot below `limit` that holds this UDP peer.
pub is_peer : Address → Slot → Bool
is_peer a s =
    (s.used && s.is_udp) && ((a.ip == s.from.ip && a.port == s.from.port) && a.len == s.from.len)

-- An index into the tail of a list, as one into the list.
pub map_suc : Option ℕ → Option ℕ
map_suc none = none
map_suc (some i) = some (suc i)

pub find_peer : Address → ℕ → List Slot → Option ℕ
unfolding is_peer map_suc
find_peer a zero ss = none
find_peer a (suc limit) [] = none
find_peer a (suc limit) (s ∷ ss) =
    let rest = find_peer a limit ss in if is_peer a s then some 0 else map_suc rest

-- The first unused slot.
pub first_free : List Slot → Option ℕ
unfolding map_suc
first_free [] = none
first_free (s ∷ ss) = let rest = first_free ss in if s.used then map_suc rest else some 0
