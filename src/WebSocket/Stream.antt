-- ===== src/WebSocket/Stream.antt =====
-- Class WebSocket of websocket.cpp, all but decode: detect, fill_pending, check_headers,
-- send_handshake, send and recv. What recv, SSL_read, send and SSL_write answer is an argument; an
-- unfinished SSL_accept answers as SSL_read does when there is nothing to read. SHA1 and base64, which
-- are of OpenSSL, are the argument `accept_val`.
pub mod Prefix
pub mod Frames
pub mod Delivery
pub mod Early
use udpproxy.Prelude.{
  ℕ, ◌+◌, ◌-◌, Bool, true, false, ◌&&◌, ◌||◌, Option, none, some, List, [], ◌∷◌, ◌++◌, ltb, leb,
  ◌==◌, if◌then◌else◌, is_some, length, take, drop,
}
use udpproxy.WebSocket.{Decoded, short, overrun, frame, decode, send_packet}

pub record Socket : Type 0 where
  pub is_open : Bool  -- fd is not -1
  pub pending : List ℕ  -- its first npending bytes
  pub done_headers : Bool
  pub handshake : List ℕ  -- the first handshake_len bytes of handshake_buf
  pub handshake_sent : ℕ

abbrev pub new_socket : Socket
new_socket = record {
  is_open = true;
  pending = [];
  done_headers = false;
  handshake = [];
  handshake_sent = 0;
}

-- A read: some bytes, EAGAIN, or an error or the end.
pub data Arrival : Type 0 where
  arrived : List ℕ → Arrival
  not_yet ended : Arrival

-- A write: how many bytes it took, EAGAIN, or an error.
pub data Written : Type 0 where
  took : ℕ → Written
  full broken : Written

-- sizeof(pending) - 1.
abbrev pub pending_size : ℕ
pending_size = 1023

pub fill_with : ℕ → Arrival → Socket → Socket
fill_with space (arrived bytes) s = record s { pending = s.pending ++ take space bytes }
fill_with space not_yet s = s
fill_with space ended s = record s { is_open = false }

pub fill_pending : Arrival → Socket → Socket
unfolding fill_with
fill_pending a s =
    if s.is_open && ltb 0 (pending_size - length s.pending)
    then fill_with (pending_size - length s.pending) a s
    else s

-- What stands after a prefix, or after the first place of a text in another, as std::string::find.
unfoldable pub after_prefix : List ℕ → List ℕ → Option (List ℕ)
after_prefix [] ys = some ys
after_prefix (x ∷ xs) [] = none
after_prefix (x ∷ xs) (y ∷ ys) = let rest = after_prefix xs ys in if x == y then rest else none

unfoldable pub after : List ℕ → List ℕ → Option (List ℕ)
after text [] = after_prefix text []
after text (y ∷ ys) =
    let later = after text ys in
    elim (after_prefix text (y ∷ ys)) [ none ↦ later | some rest ↦ some rest ]

-- What stands before it.
pub before : List ℕ → List ℕ → Option (List ℕ)
before text [] = elim (after_prefix text []) [ none ↦ none | some rest ↦ some [] ]
before text (y ∷ ys) =
    let later = before text ys in
    elim (after_prefix text (y ∷ ys)) [
      | none ↦ elim later [ none ↦ none | some front ↦ some (y ∷ front) ]
      | some rest ↦ some []
    ]

-- strnlen: up to the first 0.
unfoldable pub until_zero : List ℕ → List ℕ
until_zero [] = []
until_zero (b ∷ bs) = let rest = until_zero bs in if b == 0 then [] else b ∷ rest

abbrev pub key_marker : List ℕ
key_marker =
    b'S' ∷ b'e' ∷ b'c' ∷ b'-' ∷ b'W' ∷ b'e' ∷ b'b' ∷ b'S' ∷ b'o' ∷ b'c' ∷ b'k' ∷ b'e' ∷ b't' ∷ b'-'
    ∷ b'K' ∷ b'e' ∷ b'y' ∷ b':' ∷ b' ' ∷ []

abbrev pub guid : List ℕ
guid =
    b'2' ∷ b'5' ∷ b'8' ∷ b'E' ∷ b'A' ∷ b'F' ∷ b'A' ∷ b'5' ∷ b'-' ∷ b'E' ∷ b'9' ∷ b'1' ∷ b'4' ∷ b'-'
    ∷ b'4' ∷ b'7' ∷ b'D' ∷ b'A' ∷ b'-' ∷ b'9' ∷ b'5' ∷ b'C' ∷ b'A' ∷ b'-' ∷ b'C' ∷ b'5' ∷ b'A'
    ∷ b'B' ∷ b'0' ∷ b'D' ∷ b'C' ∷ b'8' ∷ b'5' ∷ b'B' ∷ b'1' ∷ b'1' ∷ []

abbrev pub crlf : List ℕ
crlf = 13 ∷ 10 ∷ []

abbrev pub response_head : List ℕ
response_head =
    b'H' ∷ b'T' ∷ b'T' ∷ b'P' ∷ b'/' ∷ b'1' ∷ b'.' ∷ b'1' ∷ b' ' ∷ b'1' ∷ b'0' ∷ b'1' ∷ b' ' ∷ b'S'
    ∷ b'w' ∷ b'i' ∷ b't' ∷ b'c' ∷ b'h' ∷ b'i' ∷ b'n' ∷ b'g' ∷ b' ' ∷ b'P' ∷ b'r' ∷ b'o' ∷ b't'
    ∷ b'o' ∷ b'c' ∷ b'o' ∷ b'l' ∷ b's' ∷ 13 ∷ 10 ∷ b'U' ∷ b'p' ∷ b'g' ∷ b'r' ∷ b'a' ∷ b'd' ∷ b'e'
    ∷ b':' ∷ b' ' ∷ b'w' ∷ b'e' ∷ b'b' ∷ b's' ∷ b'o' ∷ b'c' ∷ b'k' ∷ b'e' ∷ b't' ∷ 13 ∷ 10 ∷ b'C'
    ∷ b'o' ∷ b'n' ∷ b'n' ∷ b'e' ∷ b'c' ∷ b't' ∷ b'i' ∷ b'o' ∷ b'n' ∷ b':' ∷ b' ' ∷ b'U' ∷ b'p'
    ∷ b'g' ∷ b'r' ∷ b'a' ∷ b'd' ∷ b'e' ∷ 13 ∷ 10 ∷ b'S' ∷ b'e' ∷ b'c' ∷ b'-' ∷ b'W' ∷ b'e' ∷ b'b'
    ∷ b'S' ∷ b'o' ∷ b'c' ∷ b'k' ∷ b'e' ∷ b't' ∷ b'-' ∷ b'A' ∷ b'c' ∷ b'c' ∷ b'e' ∷ b'p' ∷ b't'
    ∷ b':' ∷ b' ' ∷ []

response : List ℕ → List ℕ
response accept = response_head ++ accept ++ crlf ++ crlf

-- The loop of send_handshake over the answers of the writes; without an answer it waits.
send_rest : List Written → Socket → Bool × Socket
send_rest [] s = (leb (length s.handshake) s.handshake_sent, s)
send_rest (took k ∷ ws) s =
    let next = send_rest ws (record s { handshake_sent = s.handshake_sent + k }) in
    if ltb s.handshake_sent (length s.handshake)
    then next
    else (s.handshake_sent == length s.handshake, s)
send_rest (full ∷ ws) s =
    if ltb s.handshake_sent (length s.handshake)
    then (false, s)
    else (s.handshake_sent == length s.handshake, s)
send_rest (broken ∷ ws) s =
    if ltb s.handshake_sent (length s.handshake)
    then (false, record s { is_open = false })
    else (s.handshake_sent == length s.handshake, s)

finished : Bool × Socket → Socket
finished (ok, s) = if ok then record s { done_headers = true; pending = [] } else s

-- What recv returns: -1, 0 for want of a frame, what a read outside the buffer gives, or bytes.
pub data Outcome : Type 0 where
  hung_up nothing overran : Outcome
  payload : List ℕ → Outcome

pub take_frame : ℕ → Decoded → Socket → Outcome × Socket
take_frame n short s = (nothing, s)
take_frame n overrun s = (overran, s)
take_frame n (frame bytes used) s =
    (payload (take n bytes), record s { pending = drop used s.pending })

module _ (accept_val : List ℕ → List ℕ) where
  pub send_handshake : List Written → List ℕ → Socket → Bool × Socket
  unfolding response send_rest
  send_handshake ws key s =
      if length s.handshake == 0
      then send_rest ws
          (record s { handshake = response (accept_val (key ++ guid)); handshake_sent = 0 })
      else send_rest ws s

  pub check_headers : List Written → Socket → Socket
  unfolding finished
  check_headers ws s = elim (after key_marker (until_zero s.pending)) [
    | none ↦ s
    | some rest ↦ elim (before crlf rest) [
      | none ↦ s
      | some key ↦ finished (send_handshake ws key s)
    ]
  ]

  -- The constructor, after the set-up of SSL.
  pub connect : Arrival → List Written → Socket
  connect a ws = check_headers ws (fill_pending a new_socket)

  -- From the test of done_headers on.
  pub read_on : List Written → ℕ → Socket → Outcome × Socket
  unfolding take_frame
  read_on ws n s =
      let s' = if s.done_headers then s else check_headers ws s in
      take_frame n (decode s'.pending) s'

  pub recv : Arrival → List Written → ℕ → Socket → Outcome × Socket
  unfolding read_on
  recv a ws n s = let s' = fill_pending a s in if s'.is_open then read_on ws n s' else (hung_up, s')

-- What WebSocket::send returns; `none`: -1.
pub send : Written → List ℕ → Socket → Option ℕ × Socket
send (took k) bytes s = (some (if ltb k (length (send_packet bytes)) then 0 else length bytes), s)
send full bytes s = (some 0, s)
send broken bytes s = (none, record s { is_open = false })

abbrev wss_prefix : List ℕ
wss_prefix = 0x16 ∷ 0x03 ∷ 0x01 ∷ []

abbrev ws_prefix : List ℕ
ws_prefix =
    b'G' ∷ b'E' ∷ b'T' ∷ b' ' ∷ b'/' ∷ b' ' ∷ b'H' ∷ b'T' ∷ b'T' ∷ b'P' ∷ b'/' ∷ b'1' ∷ b'.' ∷ b'1'
    ∷ []

-- The bytes that a peek gives, up to 14 of them; `sizeof(ws_prefix)` is the size of a pointer.
pub detect : List ℕ → Bool
detect peek =
    is_some (after_prefix wss_prefix peek)
    || (leb 8 (length peek) && is_some (after_prefix ws_prefix peek))
