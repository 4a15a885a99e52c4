-- ===== src/Lib.antt =====
-- SupportProxy: a verification library for the MAVLink support proxy.
--
-- The proxy joins a drone's user with support engineers. A parent process (supportproxy.cpp) reads
-- keys.tdb, listens on two ports for each port pair, and forks a child for a pair when something
-- arrives. The child's main_loop forwards MAVLink messages between the user and up to 100 engineers
-- (the slots conn2), records dataflash logs that the vehicle streams (binlog.cpp) in files whose
-- numbers session.cpp chooses, and keeps the live connections in connections.tdb (conntdb.cpp).
--
-- Files and what they model:
--   Prelude          shared names, Boolean tests and lists over the native numbers, bits of a byte.
--   Message          mavlink_message_t, and the generated MAVLink headers as a parameter, Dialect.
--   Session          session.cpp: next_session_n (Session/Number); the names of session files and the
--                    tree logs/<port2>/<date>/ (Session/Names), with the name test of cleanup.cpp.
--   Binlog           binlog.h and binlog.cpp, class BinlogWriter. Writer is its state: fp is an open
--                    file with its bytes, seen_bitmap, pending_acks and nack_state are lists.
--                    Bitmap: seqno_seen, mark_seqno_seen. Writer: open, close and
--                    refresh_other_sessions_bytes. Receive: handle_block, queue_gap_nacks. Pump:
--                    tick, send_status, send_start_packet, drop_stale_nack_state. Reboot: observe,
--                    rotate_for_reboot. History: these calls in any order.
--   Database         keydb.h and keydb.cpp (KeyEntry, Keys; Keys/Totals is the end of main_loop),
--                    conntdb.h and conntdb.cpp (Connections, with Connections/Opening for its
--                    retries), over libtdb as a parameter with its laws (Tdb).
--   Ports            the parent process of supportproxy.cpp: upsert_port, handle_record,
--                    reload_ports; Rounds: check_children, handle_connection, wait_connection, main.
--   Slots            the class Connection2 and the slots of main_loop in supportproxy.cpp: timeouts,
--                    forwarding, new engineers, hang-ups and process_drops.
--   Link             mavlink.h and mavlink.cpp, class MAVLink, over the MAVLink library as a parameter,
--                    Wire. Signing: init, load_signing_key, update_signing_timestamp,
--                    save_signing_timestamp, handle_setup_signing. Receive: receive_message. Send:
--                    send_message, with socket_is_dead and tcp_writable_bytes of util.cpp. Relay: the
--                    loop of main_loop over the messages of an engineer. Hear: receive_message over what
--                    a user sends. A link keeps what the library knows of its channel.
--   Tlog             tlog.h and tlog.cpp, class TlogWriter, tlog_write_message of mavlink.cpp, and
--                    ensure_tlog_open of main_loop.
--   MainLoop         main_loop of supportproxy.cpp, the process of a port pair. User, Engineers: the
--                    branches of a round. Rounds: a round, from the drop requests to the snapshot, and the
--                    whole session. What the branches do to the slots stands in Slots, to the logs in
--                    UserLoop and Tlog. Relaying: the messages of an engineer, from the links of Link.
--   UserLoop         the loop of main_loop over the user's messages, which joins Tlog, Binlog and Slots.
--                    Guarded: the same from the bytes on, with Link. Delivered: with the readers of the log.
--   Drops            process_drops of main_loop, from the records of connections.tdb to the slots.
--   Sockets          open_socket_in_udp and open_socket_in_tcp of util.cpp, and the process's open
--                    descriptors.
--   Snapshot         the records of the live connections that main_loop writes to connections.tdb.
--   Cleanup          cleanup.cpp: retention_pass, enforce_port2_quota and cleanup_for_port2; Pass: the
--                    traversal of keys.tdb that log_cleanup_once makes.
--   WebSocket        class WebSocket of websocket.cpp: decode and the packets of send, the frames of a
--                    client (Masked); Stream: detect, fill_pending, check_headers, send_handshake, recv.
--                    What OpenSSL answers is an argument.
--
-- How the model stands to the code: state is passed explicitly. What the system answers (fopen,
-- fwrite, opendir, stat, fork, waitpid, send, the clock) is an argument of the operation, so that
-- the theorems hold for every answer. What the pointer ws of mav1 holds before it is written is an
-- argument of new_session. Times that the source keeps as a double of seconds are natural
-- numbers of microseconds. Unsigned arithmetic keeps its wrap-around where the source computes in a
-- fixed width. A list of map entries is in the order in which the source iterates over the map.
--
-- Recursion is structural, with three counters: seed_nacks runs for the length of the gap, decimal
-- prints n with n + 1 steps, which is at least the number of its digits, and on_first, find_peer and
-- the like stop at max_conn2_count as the loops of the source do. The loop over the messages of a
-- datagram (relay, hear_all) runs on fuel; one round for each byte is enough, since each round takes one.
--
-- A counter above a hundred makes the source read past conn2. The loop over the engineers' TCP
-- connections ends there (overrun); the other loops over the slots stop behind the last one.
--
-- Not modelled: the socket calls of main_loop, the MAVLink library (its parser,
-- signatures and packing), the text of STATUSTEXT messages, the interval and the hourly loop of
-- cleanup.cpp, the set-up of OpenSSL in websocket.cpp, mkpath_0700, sha256.cpp (another project's
-- code), the socket options and clocks of util.cpp (system calls only), and the Python tools and web
-- administration.
pub mod Prelude
pub mod Session
pub mod Message
pub mod Binlog
pub mod Database
pub mod Ports
pub mod Slots
pub mod WebSocket
pub mod Cleanup
pub mod Link
pub mod Tlog
pub mod Snapshot
pub mod UserLoop
pub mod Drops
pub mod Sockets
pub mod MainLoop
