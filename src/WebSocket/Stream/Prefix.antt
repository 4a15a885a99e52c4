-- ===== src/WebSocket/Stream/Prefix.antt =====
-- decode on the first bytes of a frame.
use udpproxy.Prelude.{
  ℕ, ◌+◌, ◌-◌, ◌%◌, ◌^◌, ◌≤◌, ◌<◌, ◌≡◌, refl, sym, ap, ◌∙◌, inl, inr, true, false, some, List, [],
  ◌∷◌, ◌++◌, arith, ltb, ◌==◌, Bool-cases, Option-cases, length, get_or, take, drop, length-append,
  get_or-append, take-drop-append,
}
use udpproxy.WebSocket.{unmask, short, is_masked, read_length, bounded, decode, frame_head}
use udpproxy.WebSocket.RoundTrip.{
  length-frame_head, is_masked-frame_head, read_length-frame_head, head_len,
}
use udpproxy.WebSocket.Masked.{masked_with, client_frame, length-masked_with}
use mathlib.Core.List.{append_assoc}

read_length-append :
    (buf more : List ℕ) (len pos : ℕ)
    → 2 ≤ length buf
    → read_length buf ≡ some (len, pos)
    → read_length (buf ++ more) ≡ some (len, pos)
unfolding read_length
read_length-append buf more len pos h e =
    let g = get_or-append buf more 1 0 (omega (arith, h)) in
    let t = length-append buf more in
    elim (Bool-cases (get_or buf 1 0 % 128 == 126)) [
      | inl a ↦ elim (Bool-cases (ltb (length buf) 4)) [
        | inl c ↦ absurd (ground (arith, a, c, e))
        | inr c ↦
            let two = take-drop-append 2 2 buf more (ground (arith, c)) in
            let long : ltb (length (buf ++ more)) 4 ≡ false = ground (arith, c, t) in
            rw (read_length, g, a, long, two) (rw (read_length, a, c) at e)
      ]
      | inr a ↦ elim (Bool-cases (get_or buf 1 0 % 128 == 127)) [
        | inl b ↦ elim (Bool-cases (ltb (length buf) 10)) [
          | inl c ↦ absurd (ground (arith, a, b, c, e))
          | inr c ↦
              let eight = take-drop-append 2 8 buf more (ground (arith, c)) in
              let long : ltb (length (buf ++ more)) 10 ≡ false = ground (arith, c, t) in
              rw (read_length, g, a, b, long, eight) (rw (read_length, a, b, c) at e)
        ]
        | inr b ↦ rw (read_length, g, a, b) (rw (read_length, a, b) at e)
      ]
    ]

is_masked-append : (buf more : List ℕ) → 2 ≤ length buf → is_masked (buf ++ more) ≡ is_masked buf
unfolding is_masked
is_masked-append buf more h = rw (get_or-append buf more 1 0 (omega (arith, h))) refl

bounded-short :
    (n pos len : ℕ) (payload : List ℕ)
    → n < pos + len
    → pos + len < 2 ^ 64
    → bounded n pos len payload ≡ short
unfolding bounded
bounded-short n pos len payload h k = ground arith

-- Where the header that stands in the first bytes announces more than there is.
part_short :
    (buf : List ℕ) (len pos : ℕ)
    → read_length buf ≡ some (len, pos)
    → is_masked buf ≡ true
    → length buf < pos + 4 + len
    → pos + 4 + len < 2 ^ 64
    → decode buf ≡ short
unfolding decode
part_short buf len pos e m h k =
    let b =
      bounded-short (length buf) (pos + 4) len
        (unmask (take 4 (drop pos buf)) 0 (take len (drop (pos + 4) buf))) h k in
    elim (Bool-cases (ltb (length buf) 2)) [
      | inl s ↦ rw (decode, s) refl
      | inr s ↦ rw (decode, s, e, m) b
    ]

pub length-client_frame :
    (a b c d : ℕ) (bytes : List ℕ)
    → length (client_frame a b c d bytes) ≡ head_len (length bytes) + 4 + length bytes
unfolding client_frame
length-client_frame a b c d bytes = omega (
  arith,
  length-append (frame_head 128 (length bytes)) ((a ∷ b ∷ c ∷ d ∷ []) ++ masked_with a b c d bytes),
  length-frame_head 128 (length bytes),
  length-masked_with a b c d bytes,
)

-- Fewer bytes of a stream than its first frame has are no frame yet.
pub decode-part :
    (a b c d : ℕ) (bytes rest buf more : List ℕ)
    → length bytes < 2 ^ 64 - 14
    → buf ++ more ≡ client_frame a b c d bytes ++ rest
    → length buf < length (client_frame a b c d bytes)
    → decode buf ≡ short
unfolding decode client_frame
decode-part a b c d bytes rest buf more small same part =
    let n = length bytes in
    let tail = ((a ∷ b ∷ c ∷ d ∷ []) ++ masked_with a b c d bytes) ++ rest in
    let shape : buf ++ more ≡ frame_head 128 n ++ tail =
      same
      ∙ append_assoc (frame_head 128 n) ((a ∷ b ∷ c ∷ d ∷ []) ++ masked_with a b c d bytes) rest in
    let size = length-client_frame a b c d bytes in
    elim (Bool-cases (ltb (length buf) 2)) [
      | inl s ↦ rw (decode, s) refl
      | inr s ↦
          let two : 2 ≤ length buf = ground (arith, s) in
          elim (Option-cases (read_length buf)) [
            | inl e ↦ rw (decode, s, e) refl
            | inr (r, e) ↦
                let whole : read_length buf ≡ some (n, head_len n) =
                  e
                  ∙ (sym (read_length-append buf more r.0 r.1 two e)
                      ∙ (ap read_length shape
                          ∙ read_length-frame_head 128 n tail (inr refl) (omega (arith, small)))) in
                let masked : is_masked buf ≡ true =
                  sym (is_masked-append buf more two)
                  ∙ (ap is_masked shape ∙ is_masked-frame_head 128 n tail (inr refl)) in
                part_short buf n (head_len n) whole masked (omega (arith, size, part))
                  (ground (arith, small))
          ]
    ]
