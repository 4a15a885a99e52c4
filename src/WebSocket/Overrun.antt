-- ===== src/WebSocket/Overrun.antt =====
-- A length for which the sum in the test of decode wraps.
use udpproxy.Prelude.{
  ℕ, ◌+◌, ◌-◌, ◌^◌, ◌≤◌, ◌<◌, ◌≡◌, refl, inr, false, List, ◌++◌, arith, ltb, length, length-append,
}
use udpproxy.WebSocket.{overrun, bounded, decode, frame_head}
use udpproxy.WebSocket.RoundTrip.{
  length-frame_head, is_masked-frame_head, read_length-frame_head, head_len,
}

bounded-wraps :
    (n pos len : ℕ) (payload : List ℕ)
    → 2 ^ 64 ≤ pos + len
    → pos + len < 2 ^ 64 + n
    → n < 2 ^ 63
    → bounded n pos len payload ≡ overrun
unfolding bounded
bounded-wraps n pos len payload lo hi small = ground arith

-- A masked frame whose header announces 2^64 - 14 bytes or more passes the test of the length, and
-- the loop reads and writes beyond the buffer, whatever follows the mask of four bytes in a buffer of
-- less than 2^62 bytes.
pub decode_overruns :
    (len : ℕ) (mask rest : List ℕ)
    → length mask ≡ 4
    → 2 ^ 64 - 14 ≤ len
    → len < 2 ^ 64
    → length rest < 2 ^ 62
    → decode (frame_head 128 len ++ (mask ++ rest)) ≡ overrun
unfolding decode
decode_overruns len mask rest four big word small =
    let tail = mask ++ rest in
    let size = length-frame_head 128 len in
    let total = length-append (frame_head 128 len) tail in
    let whole = length-append mask rest in
    let long : head_len len ≡ 10 = ground arith in
    let enough : ltb (length (frame_head 128 len ++ tail)) 2 ≡ false =
      ground (arith, size, total, long) in
    rw
      (
        decode,
        enough,
        read_length-frame_head 128 len tail (inr refl) word,
        is_masked-frame_head 128 len tail (inr refl),
      )
      (bounded-wraps _ (head_len len + 4) len _ (omega (arith, long))
        (omega (arith, size, total, whole, long, four))
        (omega (arith, size, total, whole, long, four)))
