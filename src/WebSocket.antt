-- ===== src/WebSocket.antt =====
-- websocket.cpp: decode, and the packets of send. A buffer is the list of its bytes. The loop that
-- takes the mask off writes each byte in front of the bytes it still reads, so that it is a function
-- of the buffer as it was.
mod RoundTrip
mod Masked
mod Overrun
pub mod Stream
mod Tests
use Prim.Native.Nat.{bit_xor}
use udpproxy.Prelude.BigEndian.{of_be, be_bytes}
use udpproxy.Prelude.{
  ℕ, ◌+◌, ◌/◌, ◌%◌, ◌^◌, Bool, Option, none, some, List, [], ◌∷◌, ◌++◌, ltb, leb, ◌==◌,
  if◌then◌else◌, length, get_or, take, drop,
}

-- What `decode` does: -1, a read beyond the `n` bytes of the buffer, or the payload and `used`.
pub data Decoded : Type 0 where
  short overrun : Decoded
  frame : List ℕ → ℕ → Decoded

-- size_t and uint64_t.
abbrev pub u64 : ℕ → ℕ
u64 n = n % 2 ^ 64

-- `buf[1] & 0x80`.
pub is_masked : List ℕ → Bool
is_masked buf = get_or buf 1 0 / 128 % 2 == 1

-- payload_len, and pos after the length.
pub read_length : List ℕ → Option (ℕ × ℕ)
read_length buf =
    let len = get_or buf 1 0 % 128 in
    if len == 126
    then (if ltb (length buf) 4 then none else some (of_be 0 (take 2 (drop 2 buf)), 4))
    else if len == 127
    then (if ltb (length buf) 10 then none else some (of_be 0 (take 8 (drop 2 buf)), 10))
    else some (len, 2)

-- `buf[pos + i] ^ mask[i % 4]`, from `i` on.
pub unmask : List ℕ → ℕ → List ℕ → List ℕ
unmask mask i [] = []
unmask mask i (b ∷ bs) = bit_xor b (get_or mask (i % 4) 0) ∷ unmask mask (i + 1) bs

-- The test of the length, whose sum is a uint64_t, and what comes of it.
pub bounded : ℕ → ℕ → ℕ → List ℕ → Decoded
bounded n pos payload_len payload =
    if ltb n (u64 (pos + payload_len))
    then short
    else if ltb n (pos + payload_len)
    then overrun
    else frame payload (pos + payload_len)

pub decode : List ℕ → Decoded
decode buf = if ltb (length buf) 2 then short else (elim (read_length buf) [
  | none ↦ short
  | some (payload_len, pos) ↦
      if is_masked buf
      then bounded (length buf) (pos + 4) payload_len
          (unmask (take 4 (drop pos buf)) 0 (take payload_len (drop (pos + 4) buf)))
      else bounded (length buf) pos payload_len (take payload_len (drop pos buf))
])

-- The header that send writes for `n` bytes. `mask_bit` is 0 there, and 128 for a client's frame.
pub frame_head : ℕ → ℕ → List ℕ
frame_head mask_bit n =
    if leb n 125
    then 0x82 ∷ (n + mask_bit) ∷ []
    else if leb n 65535
    then 0x82 ∷ (126 + mask_bit) ∷ be_bytes 2 n
    else 0x82 ∷ (127 + mask_bit) ∷ be_bytes 8 n

-- The packet that send hands to the socket.
pub send_packet : List ℕ → List ℕ
send_packet bytes = frame_head 0 (length bytes) ++ bytes
