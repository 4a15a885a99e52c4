-- ===== src/WebSocket/RoundTrip.antt =====
-- What decode makes of the packets of send.
use udpproxy.Prelude.BigEndian.{of_be, be_bytes, of_be-be_bytes, length-be_bytes}
use udpproxy.Prelude.{
  ℕ, suc, ◌+◌, ◌-◌, ◌%◌, ◌^◌, ◌≤◌, ◌<◌, ◌≡◌, refl, ap, ◌∙◌, ◌⊎◌, inl, inr, false, some, List, ◌∷◌,
  ◌++◌, arith, ltb, leb, ◌==◌, if◌then◌else◌, Bool-cases, length, length-append, take-append,
  take_front, drop_front,
}
use mathlib.Core.List.{append_assoc}
use udpproxy.WebSocket.{frame, is_masked, read_length, bounded, decode, frame_head, send_packet}

abbrev pub head_len : ℕ → ℕ
head_len n = if leb n 125 then 2 else if leb n 65535 then 4 else 10

pub length-frame_head : (m n : ℕ) → length (frame_head m n) ≡ head_len n
unfolding frame_head
length-frame_head m n = ground (arith, length-be_bytes 2 n, length-be_bytes 8 n)

pub is_masked-frame_head :
    (m n : ℕ) (rest : List ℕ)
    → (m ≡ 0) ⊎ (m ≡ 128)
    → is_masked (frame_head m n ++ rest) ≡ (m == 128)
unfolding is_masked frame_head
is_masked-frame_head m n rest h = ground arith

read_length-short :
    (b n : ℕ) (rest : List ℕ) → b % 128 ≡ n → n ≤ 125 → read_length (0x82 ∷ b ∷ rest) ≡ some (n, 2)
unfolding read_length
read_length-short b n rest e h = ground arith

read_length-two :
    (b n : ℕ) (ext rest : List ℕ)
    → b % 128 ≡ 126
    → length ext ≡ 2
    → of_be 0 ext ≡ n
    → read_length (0x82 ∷ b ∷ (ext ++ rest)) ≡ some (n, 4)
unfolding read_length
read_length-two b n ext rest e size value =
    let front = take_front 2 ext rest size in
    let enough : ltb (suc (suc (length (ext ++ rest)))) 4 ≡ false =
      ground (arith, length-append ext rest, size) in
    simp (e, enough, front, value)

read_length-eight :
    (b n : ℕ) (ext rest : List ℕ)
    → b % 128 ≡ 127
    → length ext ≡ 8
    → of_be 0 ext ≡ n
    → read_length (0x82 ∷ b ∷ (ext ++ rest)) ≡ some (n, 10)
unfolding read_length
read_length-eight b n ext rest e size value =
    let front = take_front 8 ext rest size in
    let enough : ltb (suc (suc (length (ext ++ rest)))) 10 ≡ false =
      ground (arith, length-append ext rest, size) in
    simp (e, enough, front, value)

pub read_length-frame_head :
    (m n : ℕ) (rest : List ℕ)
    → (m ≡ 0) ⊎ (m ≡ 128)
    → n < 2 ^ 64
    → read_length (frame_head m n ++ rest) ≡ some (n, head_len n)
unfolding read_length frame_head
read_length-frame_head m n rest h small = elim (Bool-cases (leb n 125)) [
  | inl e ↦ rw e (read_length-short (n + m) n rest (ground (arith, h, e)) (ground (arith, e)))
  | inr e ↦ elim (Bool-cases (leb n 65535)) [
    | inl f ↦
        simp (e, f)
          (read_length-two (126 + m) n (be_bytes 2 n) rest (ground (arith, h)) (length-be_bytes 2 n)
            (of_be-be_bytes 2 n (ground (arith, f))))
    | inr f ↦
        simp (e, f)
          (read_length-eight (127 + m) n (be_bytes 8 n) rest (ground (arith, h))
            (length-be_bytes 8 n) (of_be-be_bytes 8 n (omega arith)))
  ]
]

pub bounded-fits :
    (n pos len : ℕ) (payload : List ℕ)
    → pos + len ≤ n
    → pos + len < 2 ^ 64
    → bounded n pos len payload ≡ frame payload (pos + len)
unfolding bounded
bounded-fits n pos len payload h k = ground arith

decode_plain :
    (bytes rest : List ℕ)
    → length bytes < 2 ^ 64 - 10
    → decode (frame_head 0 (length bytes) ++ (bytes ++ rest))
      ≡ frame bytes (head_len (length bytes) + length bytes)
unfolding decode
decode_plain bytes rest small =
    let n = length bytes in
    let size = length-frame_head 0 n in
    let total = length-append (frame_head 0 n) (bytes ++ rest) in
    let whole = length-append bytes rest in
    let enough : ltb (length (frame_head 0 n ++ (bytes ++ rest))) 2 ≡ false =
      ground (arith, size, total) in
    rw
      (
        decode,
        enough,
        read_length-frame_head 0 n (bytes ++ rest) (inl refl) (omega arith),
        is_masked-frame_head 0 n (bytes ++ rest) (inl refl),
        drop_front (head_len n) (frame_head 0 n) (bytes ++ rest) size,
        take-append bytes rest,
      )
      (bounded-fits _ (head_len n) n bytes (ground (arith, size, total, whole)) (ground arith))

-- Whatever is sent, of less than 2^64 - 10 bytes and with whatever behind it in the buffer, decode
-- gives back, and uses exactly the packet.
pub decode-send_packet :
    (bytes rest : List ℕ)
    → length bytes < 2 ^ 64 - 10
    → decode (send_packet bytes ++ rest) ≡ frame bytes (length (send_packet bytes))
unfolding send_packet
decode-send_packet bytes rest small =
    let n = length bytes in
    let size = length-append (frame_head 0 n) bytes ∙ ap (λ h. h + n) (length-frame_head 0 n) in
    rw (append_assoc (frame_head 0 n) bytes rest, size) (decode_plain bytes rest small)
