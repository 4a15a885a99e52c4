-- ===== src/WebSocket/Masked.antt =====
-- What decode makes of the masked frames of a client.
use Prim.Native.Nat.{bit_xor}
use udpproxy.Prelude.{
  ℕ, suc, ◌+◌, ◌-◌, ◌%◌, ◌^◌, ◌<◌, ◌≡◌, refl, sym, ap, ◌∙◌, subst, inr, false, List, [], ◌∷◌, ◌++◌,
  arith, ltb, length, drop, All, length-append, take-append, take_front, drop_front,
}
use mathlib.Core.List.{append_assoc}
use udpproxy.Prelude.Bits.{bit_xor_twice}
use udpproxy.WebSocket.{frame, unmask, decode, frame_head}
use udpproxy.WebSocket.RoundTrip.{
  bounded-fits, length-frame_head, is_masked-frame_head, read_length-frame_head, head_len,
}

abbrev pub IsBytes : List ℕ → Type 0
IsBytes = All (λ b. b < 256)

-- The masking of a client, RFC 6455, 5.3: the four bytes of the key take turns.
pub masked_with : ℕ → ℕ → ℕ → ℕ → List ℕ → List ℕ
masked_with a b c d [] = []
masked_with a b c d (x ∷ xs) = bit_xor x a ∷ masked_with b c d a xs

-- The frame of a client, which is masked.
unfoldable pub client_frame : ℕ → ℕ → ℕ → ℕ → List ℕ → List ℕ
client_frame a b c d bytes =
    frame_head 128 (length bytes) ++ ((a ∷ b ∷ c ∷ d ∷ []) ++ masked_with a b c d bytes)

pub length-masked_with : (a b c d : ℕ) (xs : List ℕ) → length (masked_with a b c d xs) ≡ length xs
unfolding masked_with
length-masked_with a b c d [] = refl
length-masked_with a b c d (x ∷ xs) = ap suc (length-masked_with b c d a xs)

module _ (a b c d : ℕ) (key : IsBytes (a ∷ b ∷ c ∷ d ∷ [])) where
  abbrev mask : List ℕ
  mask = a ∷ b ∷ c ∷ d ∷ []

  -- At a position that is k modulo 4, the key has turned k times.
  abbrev Unmasks : ℕ → List ℕ → Type 0
  Unmasks i xs =
      (i % 4 ≡ 0 → unmask mask i (masked_with a b c d xs) ≡ xs)
      × (i % 4 ≡ 1 → unmask mask i (masked_with b c d a xs) ≡ xs)
      × (i % 4 ≡ 2 → unmask mask i (masked_with c d a b xs) ≡ xs)
      × (i % 4 ≡ 3 → unmask mask i (masked_with d a b c xs) ≡ xs)

  unmask-masked : (i : ℕ) (xs : List ℕ) → IsBytes xs → Unmasks i xs
  unfolding unmask masked_with
  unmask-masked i [] h = ((λ e. refl), (λ e. refl), (λ e. refl), (λ e. refl))
  unmask-masked i (x ∷ xs) h =
      let r = unmask-masked (i + 1) xs h.1 in
      (
        (λ e. rw (e, r.1 (omega arith)) (ap (λ y. y ∷ xs) (bit_xor_twice x a h.0 key.0).0)),
        (λ e. rw (e, r.2 (omega arith)) (ap (λ y. y ∷ xs) (bit_xor_twice x b h.0 key.1.0).0)),
        (λ e. rw (e, r.3 (omega arith)) (ap (λ y. y ∷ xs) (bit_xor_twice x c h.0 key.1.1.0).0)),
        (λ e. rw (e, r.0 (omega arith)) (ap (λ y. y ∷ xs) (bit_xor_twice x d h.0 key.1.1.1.0).0)),
      )

pub drop_mask :
    (head mask rest : List ℕ) (h : ℕ)
    → length head ≡ h
    → length mask ≡ 4
    → drop (h + 4) (head ++ (mask ++ rest)) ≡ rest
drop_mask head mask rest h size four =
    subst (λ l. drop (h + 4) l ≡ rest) (append_assoc head mask rest)
      (drop_front (h + 4) (head ++ mask) rest (length-append head mask ∙ omega arith))

decode_masked :
    (mask body rest : List ℕ)
    → length mask ≡ 4
    → length body < 2 ^ 64 - 14
    → decode (frame_head 128 (length body) ++ (mask ++ (body ++ rest)))
      ≡ frame (unmask mask 0 body) (head_len (length body) + 4 + length body)
unfolding decode
decode_masked mask body rest four small =
    let n = length body in
    let tail = mask ++ (body ++ rest) in
    let size = length-frame_head 128 n in
    let total = length-append (frame_head 128 n) tail in
    let whole = length-append body rest in
    let masked = length-append mask (body ++ rest) in
    let enough : ltb (length (frame_head 128 n ++ tail)) 2 ≡ false = ground (arith, size, total) in
    rw
      (
        decode,
        enough,
        read_length-frame_head 128 n tail (inr refl) (omega arith),
        is_masked-frame_head 128 n tail (inr refl),
        drop_front (head_len n) (frame_head 128 n) tail size,
        take_front 4 mask (body ++ rest) four,
        drop_mask (frame_head 128 n) mask (body ++ rest) _ size four,
        take-append body rest,
      )
      (bounded-fits _ (head_len n + 4) n (unmask mask 0 body)
        (ground (arith, size, total, whole, masked, four)) (ground arith))

-- A masked frame of a client, of less than 2^64 - 14 bytes, with any key of four bytes and whatever
-- behind it in the buffer, is decoded to what the client put in, and decode uses exactly the frame.
pub decode-client_frame :
    (a b c d : ℕ) (bytes rest : List ℕ)
    → IsBytes (a ∷ b ∷ c ∷ d ∷ [])
    → IsBytes bytes
    → length bytes < 2 ^ 64 - 14
    → decode (client_frame a b c d bytes ++ rest)
      ≡ frame bytes (length (client_frame a b c d bytes))
unfolding client_frame
decode-client_frame a b c d bytes rest key hb small =
    let n = length bytes in
    let mask = a ∷ b ∷ c ∷ d ∷ [] in
    let body = masked_with a b c d bytes in
    let same = length-masked_with a b c d bytes in
    let head = frame_head 128 n in
    let shape : (head ++ (mask ++ body)) ++ rest
        ≡ frame_head 128 (length body) ++ (mask ++ (body ++ rest)) =
      append_assoc head (mask ++ body) rest
      ∙ ap (λ k. frame_head 128 k ++ (mask ++ (body ++ rest))) (sym same) in
    let size : head_len (length body) + 4 + length body ≡ length (head ++ (mask ++ body)) =
      omega (
        arith,
        length-append head (mask ++ body),
        length-frame_head 128 n,
        same,
        ap head_len same,
      ) in
    let plain = (unmask-masked a b c d key 0 bytes hb).0 refl in
    ap decode shape
    ∙ (decode_masked mask body rest refl (omega (arith, same)) ∙ λ i. frame (plain i) (size i))
