-- ===== src/WebSocket/Tests.antt =====
-- Frames of concrete bytes.
use udpproxy.Prelude.{
  ℕ, ◌<◌, ◌≡◌, refl, true, none, List, [], ◌∷◌, ◌++◌, arith, length, take, drop, replicate,
  length-replicate,
}
use udpproxy.WebSocket.{overrun, frame, decode, frame_head, send_packet}
use udpproxy.WebSocket.RoundTrip.{decode-send_packet}
use udpproxy.WebSocket.Masked.{decode-client_frame, client_frame}
use udpproxy.WebSocket.Stream.{
  Socket, new_socket, arrived, not_yet, payload, connect, recv, after, key_marker, until_zero,
  after_prefix,
}
use udpproxy.WebSocket.Stream.Prefix.{length-client_frame}
use udpproxy.WebSocket.Stream.Frames.{Frame, on_wire, stream, IsFrame, IsReady, polls}
use udpproxy.WebSocket.Stream.Delivery.{IsDelivered, polls-IsDelivered, polls_deliver, polls_stall}
use udpproxy.WebSocket.Stream.Early.{recv-connect_early}
use udpproxy.WebSocket.Overrun.{decode_overruns}

-- A heartbeat's first bytes.
abbrev packet : List ℕ
packet = 0xfd ∷ 0x09 ∷ 0x00 ∷ []

abbrev mask : List ℕ
mask = 0x37 ∷ 0xfa ∷ 0x21 ∷ 0x3d ∷ []

decode-send_packet_example :
    decode (send_packet packet ++ 0x82 ∷ []) ≡ frame packet (length (send_packet packet))
decode-send_packet_example = decode-send_packet packet (0x82 ∷ []) (omega arith)

decode-client_frame_example :
    decode (client_frame 0x37 0xfa 0x21 0x3d packet ++ 0x82 ∷ [])
    ≡ frame packet (length (client_frame 0x37 0xfa 0x21 0x3d packet))
decode-client_frame_example =
    decode-client_frame 0x37 0xfa 0x21 0x3d packet (0x82 ∷ [])
      (omega arith, (omega arith, (omega arith, (omega arith, tt))))
      (omega arith, (omega arith, (omega arith, tt))) (omega arith)

decode_overruns_example :
    decode (frame_head 128 18_446_744_073_709_551_615 ++ (mask ++ packet)) ≡ overrun
decode_overruns_example =
    decode_overruns 18_446_744_073_709_551_615 mask packet refl (omega arith) (omega arith)
      (omega arith)

-- A socket after the handshake, and two frames that wait in the kernel.
abbrev connected : Socket
connected = record new_socket { done_headers = true }

abbrev small_frame : Frame
small_frame = record { a = 0x37; b = 0xfa; c = 0x21; d = 0x3d; bytes = packet }

small_frame-size : length (on_wire small_frame) ≡ 9
small_frame-size = ground (arith, length-client_frame 0x37 0xfa 0x21 0x3d packet)

small_frame-IsFrame : IsFrame small_frame
small_frame-IsFrame = (
  (omega arith, (omega arith, (omega arith, (omega arith, tt)))),
  (omega arith, (omega arith, (omega arith, tt))),
  omega (arith, small_frame-size),
)

abbrev two_frames : List Frame
two_frames = small_frame ∷ small_frame ∷ []

connected-IsReady : IsReady (λ key. key) 10240 connected
connected-IsReady = (refl, refl, omega arith)

polls-IsDelivered_example :
    IsDelivered
      (λ key. key)
      10240
      two_frames
      (polls (λ key. key) 10240 (4 ∷ 9 ∷ 2 ∷ 100 ∷ []) (connected, stream two_frames))
polls-IsDelivered_example =
    polls-IsDelivered (λ key. key) 10240 (4 ∷ 9 ∷ 2 ∷ 100 ∷ []) two_frames connected
      (stream two_frames) (small_frame-IsFrame, (small_frame-IsFrame, tt)) connected-IsReady
      (omega arith) refl

polls_deliver_example :
    (polls (λ key. key) 10240 (2000 ∷ 2000 ∷ []) (connected, stream two_frames)).0
    ≡ packet ∷ packet ∷ []
polls_deliver_example =
    polls_deliver (λ key. key) 10240 (2000 ∷ 2000 ∷ []) two_frames connected (stream two_frames)
      (small_frame-IsFrame, (small_frame-IsFrame, tt)) connected-IsReady (omega arith) refl refl
      (omega arith, (omega arith, tt))

abbrev large_frame : Frame
large_frame = record small_frame { bytes = replicate 1020 7 }

large_frame-size : 1023 < length (on_wire large_frame)
large_frame-size = ground (
  arith,
  length-client_frame 0x37 0xfa 0x21 0x3d (replicate 1020 7),
  length-replicate {A = ℕ} 1020 7,
)

polls_stall_example :
    (polls
      (λ key. key)
      10240
      (500 ∷ 2000 ∷ 2000 ∷ [])
      (connected, on_wire large_frame ++ stream two_frames)).0
    ≡ []
polls_stall_example =
    polls_stall (λ key. key) 10240 (500 ∷ 2000 ∷ 2000 ∷ []) large_frame (stream two_frames)
      connected (on_wire large_frame ++ stream two_frames)
      (omega (arith, length-replicate {A = ℕ} 1020 7)) large_frame-size connected-IsReady refl

abbrev ten : List ℕ
ten = b'x' ∷ b'x' ∷ b'x' ∷ b'x' ∷ b'x' ∷ b'x' ∷ b'x' ∷ b'x' ∷ b'x' ∷ b'x' ∷ []

-- A request line, and 80 bytes of other headers.
abbrev first_piece : List ℕ
first_piece =
    b'T' ∷ b' ' ∷ b'/' ∷ (ten ++ (ten ++ (ten ++ (ten ++ (ten ++ (ten ++ (ten ++ ten)))))))

no_key : after key_marker (until_zero (b'G' ∷ b'E' ∷ first_piece)) ≡ none
unfolding after after_prefix until_zero
no_key = refl

recv-connect_early_example :
    recv
      (λ key. key)
      not_yet
      []
      10240
      (connect (λ key. key) (arrived (b'G' ∷ b'E' ∷ first_piece)) [])
    ≡ (
      payload (take 10240 (take 69 first_piece)),
      record new_socket { pending = drop 69 first_piece },
    )
recv-connect_early_example =
    recv-connect_early (λ key. key) first_piece [] [] 10240 (omega arith) (omega arith) no_key
