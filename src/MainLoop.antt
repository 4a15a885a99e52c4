-- ===== src/MainLoop.antt =====
-- main_loop of supportproxy.cpp: the process of one port pair. Session holds its variables, a Turn
-- what the system answers in one round of its `while (1)`. What parse and send make of the bytes
-- (Link) enters as the messages that receive_message completes and the answers of send_message; the
-- set of sockets that select looks at is computed. Times are in microseconds where the source has
-- seconds in a double.
pub mod Flow
pub mod User
pub mod Engineers
pub mod Rounds
pub mod SameUser
pub mod Rule
pub mod OneUser
pub mod Silence
pub mod Recorded
pub mod Overrun
pub mod Starving
pub mod Relaying
mod Watched
mod Tests
use udpproxy.Prelude.{
  ℕ, zero, suc, Bool, false, ◌||◌, Option, none, some, List, [], ◌∷◌, ◌++◌, ltb, ◌==◌,
  if◌then◌else◌, replicate,
}
use udpproxy.Message.{Message, Dialect}
use udpproxy.Binlog.Pump.{StatusPacket}
use udpproxy.Binlog.Reboot.{set_fc_sysid_filter}
use udpproxy.Binlog.Writer.{Writer, new_writer}
use udpproxy.Database.Tdb.{Tdb}
use udpproxy.Slots.{Address, Slot, max_comm2_links}
use udpproxy.Snapshot.{View}
use udpproxy.Tlog.{Heard}
use udpproxy.UserLoop.{Incoming, Setup, State}

-- The arguments of mav1.init that vary.
pub record Init : Type 0 where
  pub fd : ℕ
  pub is_tcp : Bool
  pub signing_required : Bool
  pub key_id : Option ℕ  -- `none`: -1

-- What recvfrom, recv or WebSocket::recv brings: how many bytes, `none` for a negative answer, and
-- the messages that receive_message completes of them before it returns false.
pub record Input (M : Type 0) : Type 0 where
  pub size : Option ℕ
  pub messages : List M

-- The loop over the messages starts with `n > 0`.
abbrev pub messages_of : {M : Type 0} → ℕ → List M → List M
messages_of n ms = if ltb 0 n then ms else []

abbrev pub or_zero : Option ℕ → ℕ
or_zero none = 0
or_zero (some n) = n

abbrev pub has_fd : List ℕ → ℕ → Bool
has_fd [] fd = false
has_fd (x ∷ xs) fd = x == fd || has_fd xs fd

abbrev pub fd_list : Option ℕ → List ℕ
fd_list none = []
fd_list (some fd) = fd ∷ []

-- The sockets of the slots below max_conn2_count. Where that is above a hundred, the source reads past
-- conn2 here too; the set then takes nothing more, and the test behind select ends the process.
pub slot_fds : ℕ → List Slot → List ℕ
slot_fds zero ss = []
slot_fds (suc limit) [] = []
slot_fds (suc limit) (s ∷ ss) = fd_list s.sock ++ slot_fds limit ss

-- `fd != -1 && FD_ISSET(fd, &fds)`.
abbrev pub is_ready : (ℕ → Bool) → Option ℕ → Bool
is_ready fds none = false
is_ready fds (some fd) = fds fd

-- What select answers: interrupted; an error or nothing for 10 seconds; the sockets that are ready.
pub data Selected : Type 0 where
  interrupted silent : Selected
  ready : (ℕ → Bool) → Selected

-- A Connection2 that has not been used.
pub new_slot : Address → Slot
new_slot nobody = record {
  sock = none;
  used = false;
  tcp_active = false;
  has_ws = false;
  from = nobody;
  is_udp = false;
  last_pkt = 0;
  connected_at = 0;
  rx_msgs = 0;
  tx_msgs = 0;
}

module _ (d : Dialect) (to_buffer : Message → List ℕ) where
  -- p->port2, session_n and the flags, `bidi`, p->fc_sysid and my_pid. The side in `setup` is not used: each
  -- branch has its own.
  pub record Pair : Type 0 where
    pub setup : Setup d to_buffer
    pub bidi : Bool
    pub fc_sysid : ℕ
    pub pid : ℕ

  -- The variables of main_loop: the sockets of the port pair, its own variables (`mav1` the arguments of
  -- mav1.init, `mav1_ws` whether the pointer ws of mav1 is not null), what the loops over
  -- messages change (`loop`), p->ws with is_SSL, the packets that tick has handed to mav1, and the
  -- views that snapshots were taken of.
  pub record Session : Type 0 where
    pub sock1_udp : Option ℕ
    pub sock2_udp : Option ℕ
    pub sock1_tcp : Option ℕ
    pub sock2_listen : Option ℕ
    pub have_conn1 : Bool
    pub last_pkt1 : ℕ
    pub count1 : ℕ
    pub count2 : ℕ
    pub mav1 : Option Init
    pub mav1_ws : Bool
    pub mav1_peer : Address
    pub mav1_connected_at : ℕ
    pub mav1_is_tcp : Bool
    pub mav1_tx_msgs : ℕ
    pub ws_ssl : Option Bool
    pub last_conn_save : ℕ
    pub loop : State d to_buffer
    pub pumped : List StatusPacket
    pub saved : List View

  -- A message of an engineer, and what mav1.send_message answers to it.
  pub record Relayed : Type 0 where
    pub heard : Heard to_buffer
    pub sent : Bool

  -- The socket of a slot: whether WebSocket::detect finds a WebSocket, and what is read.
  pub record Reading : Type 0 where
    pub detected : Bool
    pub bytes : Input Relayed

  pub record Turn (tdb : Tdb) : Type 0 where
    -- g_drops_pending: whether the transaction on connections.tdb starts, and its records; whether its
    -- commit succeeds.
    pub signal : Option (Bool × tdb.Db)
    pub commits : Bool
    -- time_seconds() before and after select, in tick and before the snapshot; time(nullptr).
    pub began : ℕ
    pub selected : Selected
    pub now : ℕ
    pub tick_now : ℕ
    pub snap_now : ℕ
    pub clock : ℕ
    -- The user: the datagram's sender and whether connect succeeds; accept; is_SSL if detect finds a
    -- WebSocket.
    pub user_from : Address
    pub connects : Bool
    pub udp_input : Input (Incoming d to_buffer)
    pub user_accepted : Option ℕ
    pub user_ws : Option Bool
    pub tcp_input : Input (Incoming d to_buffer)
    -- The engineers: a datagram, accept, and the slots' sockets by their index.
    pub engineer_from : Address
    pub engineer_input : Input Relayed
    pub engineer_accepted : Option ℕ
    pub readings : ℕ → Reading
    -- What send_buf answers to tick, fork, and is_SSL by the connection index.
    pub accepts : StatusPacket → Bool
    pub forks : Bool
    pub slot_ssl : ℕ → Bool

  -- The sockets that go into `fds`.
  pub watched : Session → List ℕ
  watched s =
      fd_list s.sock1_udp
      ++ (fd_list s.sock2_udp
          ++ (fd_list s.sock1_tcp
              ++ (fd_list s.sock2_listen
                  ++ slot_fds s.loop.table.max_conn2_count s.loop.table.slots)))

  -- binlog.set_fc_sysid_filter, where the log is enabled.
  pub new_binlog : Pair → Writer
  new_binlog p =
      if p.setup.binlog_enabled then set_fc_sysid_filter p.fc_sysid new_writer else new_writer

  -- main_loop's variables at its start, with the sockets of the port pair. The address is what the
  -- structs hold that nothing has been written to, and `held` whether the pointer ws of mav1, which
  -- neither its declaration nor MAVLink::init writes, is not null.
  pub new_session : Pair → Option ℕ → Option ℕ → Option ℕ → Option ℕ → Address → Bool → Session
  unfolding new_binlog new_slot
  new_session p sock1_udp sock2_udp sock1_tcp sock2_listen nobody held = record {
    sock1_udp = sock1_udp;
    sock2_udp = sock2_udp;
    sock1_tcp = sock1_tcp;
    sock2_listen = sock2_listen;
    have_conn1 = false;
    last_pkt1 = 0;
    count1 = 0;
    count2 = 0;
    mav1 = none;
    mav1_ws = held;
    mav1_peer = nobody;
    mav1_connected_at = 0;
    mav1_is_tcp = false;
    mav1_tx_msgs = 0;
    ws_ssl = none;
    last_conn_save = 0;
    loop = record {
      tlog = none;
      binlog = new_binlog p;
      table = record {
        slots = replicate max_comm2_links (new_slot nobody);
        conn2_count = 0;
        max_conn2_count = 0;
      };
      mav1_rx_msgs = 0;
      passed = [];
    };
    pumped = [];
    saved = [];
  }
