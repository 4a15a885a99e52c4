-- ===== src/Link/Tests.antt =====
-- Runs of a link, with a library whose every byte but 0 is a whole message: 255 is one that the
-- callback is asked about, and an even one has no signature.
use udpproxy.Prelude.{
  ℕ, ◌+◌, ◌%◌, ◌^◌, ◌≤◌, ◌<◌, min, max, ◌≡◌, refl, inl, true, false, none, some, List, [], ◌∷◌,
  arith, ◌==◌, if◌then◌else◌, is_some, replicate, All, length-replicate,
}
use mathlib.Core.List.{Memᴰ}
use udpproxy.Message.{Message, SetupSigning, Dialect}
use udpproxy.Slots.{Address}
use udpproxy.Database.Tests.Store.{records_tdb, entry, entry-IsEntry, before, after}
use udpproxy.Database.KeyEntry.{KeyEntry}
use udpproxy.Database.Keys.{db_load_key, db_save_key}
use udpproxy.Database.Keys.Laws.{db_load_key-save}
use udpproxy.Link.{Link, Wire, by_ws, send_data, set_ws, set_sendto, no_signing}
use udpproxy.Link.Clock.{now_mavlink}
use udpproxy.Link.Signing.{save_signing_timestamp, load_signing_key, handle_setup_signing, init}
use udpproxy.Link.Signing.Stored.{load_signing_key-save_signing_timestamp, handle_setup_signing_lem}
use udpproxy.Link.Signing.Stale.{send_data-init}
use udpproxy.Link.Receive.{
  Env, parse_bytes, judged, judge, signed, note_asked, is_signed, receive_message,
}
use udpproxy.Link.Receive.Trust.{IsTrusted, receive_message-IsTrusted}
use udpproxy.Link.Send.{Probe}
use udpproxy.Link.Send.Gate.{LinkEvent, arrive, forward, Session, notes, IsGated, notes-IsGated}
use udpproxy.Link.Relay.{Round, Relay, relay}
use udpproxy.Link.Relay.Ends.{IsSigned, relay-IsSigned}

abbrev pub dialect : Dialect
dialect = record {
  id_heartbeat = 1;
  id_system_time = 2;
  id_setup_signing = 251;
  id_remote_log_data_block = 184;
  id_remote_log_block_status = 185;
  comp_id_autopilot1 = 1;
  block_start = 2147483646;
  status_ack = 1;
  status_nack = 0;
  decode_block = λ m. record { seqno = 0; bytes = m.payload };
  decode_time_boot_ms = λ m. 0;
  decode_setup_signing = λ m. record { secret_key = m.payload; initial_timestamp = 0 };
}

abbrev pub message_of : ℕ → Message
message_of b = record {
  msgid = b;
  sysid = 255;
  compid = 190;
  seq = 0;
  incompat_flags = b % 2;
  payload = replicate 32 b;
  signature = [];
}

abbrev pub wire : Wire
wire = record {
  Parser = ℕ;
  parse_char = λ p s b. (
    p + 1,
    s,
    if b == 0 then none else some (record { message = message_of b; asked = b == 255 }),
  );
  clear_streams = λ p. p;
  iflag_signed = 1;
  is_known = λ m. true;
  pack_text = λ s sysid compid. s;
  finalize = λ s m. (s, m.msgid ∷ 253 ∷ []);
}

-- An engineer's link of port 10006, with its key.
abbrev pub engineer : Link
engineer = record {
  fd = 7;
  chan = 1;
  key_id = some 10006;
  is_tcp = false;
  allow_websocket = false;
  key_loaded = true;
  got_signed_packet = false;
  got_bad_signature = false;
  sendto = none;
  ws = none;
  signing = record no_signing { timestamp = 30_000_000_000_000 };
  attached = true;
  last_signing_save = 0;
  last_signing_warning = 0;
  last_sysid = 0;
  last_compid = 0;
  bad_sig_count = 0;
}

abbrev pub user : Link
user = record engineer { chan = 0; key_id = none; key_loaded = false; attached = false }

abbrev pub env : Env
env = record { now = 1_760_000_000_000_000; opens = true; allocates = true }

abbrev pub probe : Probe
probe = record {
  stream = some true;
  poll_error = some false;
  so_error = some 0;
  is_writable_state = some true;
  outq = some 0;
  sndbuf = some 4096;
}

passes :
    (receive_message dialect records_tdb wire env after 0 engineer (0 ∷ 33 ∷ [])).result
    ≡ some (message_of 33)
unfolding receive_message parse_bytes judged judge signed note_asked is_signed
passes = refl

-- A byte of noise, then a signed message.
receive_message-IsTrusted_example :
    IsTrusted dialect records_tdb wire engineer
      (message_of 33)
      (receive_message dialect records_tdb wire env after 0 engineer (0 ∷ 33 ∷ [])).link
receive_message-IsTrusted_example =
    receive_message-IsTrusted dialect records_tdb wire env after 0 engineer (0 ∷ 33 ∷ [])
      (message_of 33) refl passes

-- A message that is not passed on, a heartbeat that is, a signed message, and then the same again.
abbrev events : List (LinkEvent dialect records_tdb wire)
events =
    forward probe 0 2 (message_of 44)
    ∷ forward probe 0 2 (message_of 1)
    ∷ arrive env (0 ∷ 33 ∷ [])
    ∷ forward probe 0 2 (message_of 44)
    ∷ []

abbrev session : Session dialect records_tdb wire
session = record { db = after; parser = 0; link = engineer }

notes-IsGated_example :
    IsGated dialect records_tdb wire false (notes dialect records_tdb wire events session)
notes-IsGated_example = notes-IsGated dialect records_tdb wire events session refl refl

saves : (e : KeyEntry) → is_some (db_save_key records_tdb after true 10006 e) ≡ true
unfolding db_save_key
saves e = refl

saved : db_save_key records_tdb before true 10006 entry ≡ some after
unfolding db_save_key
saved = refl

loads : db_load_key records_tdb after 10006 ≡ some entry
loads = db_load_key-save records_tdb before after true 10006 entry entry-IsEntry saved refl

in_time : now_mavlink 1_760_000_000_000_000 + 1_500_000 < 2 ^ 64
unfolding now_mavlink
in_time = omega arith

load_signing_key-save_signing_timestamp_example :
    let db' =
      save_signing_timestamp records_tdb after true true 1_760_000_000_000_000
        (some 10006)
        (user ∷ engineer ∷ []) in
    let t = (load_signing_key records_tdb db' 1_760_000_010_000_000 engineer).signing.timestamp in
    (min engineer.signing.timestamp (now_mavlink 1_760_000_000_000_000) + 1_500_000 ≤ t)
    × (now_mavlink 1_760_000_010_000_000 ≤ t)
    × (t
        ≤ max
            (max entry.timestamp (now_mavlink 1_760_000_000_000_000) + 1_500_000)
            (now_mavlink 1_760_000_010_000_000))
load_signing_key-save_signing_timestamp_example =
    load_signing_key-save_signing_timestamp records_tdb after true 1_760_000_000_000_000
      1_760_000_010_000_000 (some 10006) (user ∷ engineer ∷ []) engineer engineer entry loads
      entry-IsEntry saves (omega arith) in_time (Memᴰ.tail (Memᴰ.head refl)) refl refl

abbrev packet : SetupSigning
packet = record { secret_key = replicate 32 9; initial_timestamp = 40_000_000_000_000 }

handle_setup_signing_lem_example :
    let r =
      handle_setup_signing records_tdb after true true 1_760_000_000_000_000 packet engineer in
    (db_load_key records_tdb r.0 10006
      ≡ some (record entry { timestamp = 40_000_000_000_000; secret_key = replicate 32 9 }))
    × (r.1.attached ≡ true)
    × (r.1.signing.sign_outgoing ≡ true)
    × (r.1.signing.secret_key ≡ replicate 32 9)
    × (40_000_000_000_000 + 1_500_000 ≤ r.1.signing.timestamp)
    × (r.1.key_loaded ≡ true)
    × (r.1.got_signed_packet ≡ false)
handle_setup_signing_lem_example =
    handle_setup_signing_lem records_tdb after true 1_760_000_000_000_000 packet engineer entry
      loads entry-IsEntry (length-replicate 32 9) (omega arith) (inl (omega arith)) saves

abbrev somewhere : Address
somewhere = record { ip = 1; port = 2; len = 16 }

send_data-init_example :
    let later =
      (init records_tdb wire after 0 8 1 true true false (some 10006) (0, set_ws 5 engineer)).1.0 in
    (send_data later ≡ by_ws 5) × (send_data (set_sendto somewhere later) ≡ by_ws 5)
send_data-init_example =
    send_data-init records_tdb wire after 0 8 1 true true false (some 10006) 0 engineer 5 somewhere

abbrev pub round : Round
round = record { env = env; probe = probe; now = 0; taken = 2 }

abbrev pub relaying : Relay dialect records_tdb wire
relaying = record {
  db = after;
  parser = 0;
  engineer = engineer;
  user = user;
  rx_msgs = 0;
  tx_msgs = 0;
  logged = [];
  failed = false;
}

relay-IsSigned_example :
    (after : Relay dialect records_tdb wire) × (relay dialect records_tdb wire
        (λ n. round)
        3
        (0 ∷ 33 ∷ 35 ∷ [])
        relaying
      ≡ some after)
    × All (IsSigned dialect records_tdb wire) after.logged
relay-IsSigned_example =
    relay-IsSigned dialect records_tdb wire (λ n. round) 3 (0 ∷ 33 ∷ 35 ∷ []) relaying (omega arith)
      refl tt
