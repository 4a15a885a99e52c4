-- ===== src/WebSocket/Stream/Early.antt =====
-- A request for a WebSocket that comes in two pieces.
use udpproxy.Prelude.{
  ℕ, ◌-◌, ◌≤◌, ◌≡◌, refl, ap, ◌∙◌, inl, inr, ◌&&◌, none, List, ◌∷◌, arith, ltb, if◌then◌else◌,
  Bool-cases, length, take, drop,
}
use udpproxy.WebSocket.{is_masked, read_length, frame, decode}
use udpproxy.WebSocket.RoundTrip.{bounded-fits}
use udpproxy.WebSocket.Stream.{
  hung_up, Socket, arrived, not_yet, Written, new_socket, pending_size, after, key_marker,
  until_zero, fill_pending, fill_with, check_headers, connect, payload, take_frame, read_on, recv,
}
use udpproxy.WebSocket.Stream.Frames.{fill_pending-arrived}

-- `G` and `E` are the header of a frame of 69 bytes without a mask.
decode_get :
    (rest : List ℕ) → 69 ≤ length rest → decode (b'G' ∷ b'E' ∷ rest) ≡ frame (take 69 rest) 71
unfolding decode read_length is_masked
decode_get rest h = elim (Bool-cases (ltb (length (b'G' ∷ b'E' ∷ rest)) 2)) [
  | inl e ↦ absurd (ground (arith, e))
  | inr e ↦ rw e (
      bounded-fits (length (b'G' ∷ b'E' ∷ rest)) 2 69 (take 69 rest) (omega (arith, h))
        (omega arith))
]

fill_pending-not_yet : (s : Socket) → fill_pending not_yet s ≡ s
unfolding fill_pending fill_with
fill_pending-not_yet s = elim (Bool-cases (s.is_open && ltb 0 (pending_size - length s.pending))) [
  | inl e ↦ rw (fill_pending, e) refl
  | inr e ↦ rw (fill_pending, e) refl
]

module _ (accept_val : List ℕ → List ℕ) where
  check_headers-none :
      (ws : List Written) (s : Socket)
      → after key_marker (until_zero s.pending) ≡ none
      → check_headers accept_val ws s ≡ s
  unfolding check_headers
  check_headers-none ws s e = rw (check_headers, e) refl

  connect-none :
      (xs : List ℕ) (ws : List Written)
      → length xs ≤ pending_size
      → after key_marker (until_zero xs) ≡ none
      → connect accept_val (arrived xs) ws ≡ record new_socket { pending = xs }
  unfolding connect
  connect-none xs ws h e =
      ap (check_headers accept_val ws) (fill_pending-arrived new_socket xs refl h)
      ∙ check_headers-none ws (record new_socket { pending = xs }) e

  -- The first piece of a request begins as `GET` does, has at least 71 bytes and at most 1023, and
  -- ends before the name of the key's header. After the constructor has read it, the next recv,
  -- which finds no more to read, takes 71 bytes off it and gives 69 of them to its caller as a frame,
  -- as far as they fit, and the handshake is not done.
  pub recv-connect_early :
      (rest : List ℕ) (ws ws' : List Written) (n : ℕ)
      → 69 ≤ length rest
      → length rest ≤ 1021
      → after key_marker (until_zero (b'G' ∷ b'E' ∷ rest)) ≡ none
      → recv accept_val not_yet ws' n (connect accept_val (arrived (b'G' ∷ b'E' ∷ rest)) ws)
        ≡ (payload (take n (take 69 rest)), record new_socket { pending = drop 69 rest })
  unfolding recv read_on take_frame
  recv-connect_early rest ws ws' n h k e =
      let s = record new_socket { pending = b'G' ∷ b'E' ∷ rest } in
      ap (recv accept_val not_yet ws' n) (connect-none (b'G' ∷ b'E' ∷ rest) ws (omega (arith, k)) e)
      ∙ (ap (λ t. if t.is_open then read_on accept_val ws' n t else (hung_up, t))
            (fill_pending-not_yet s)
          ∙ (ap (λ t. take_frame n (decode t.pending) t) (check_headers-none ws' s e)
              ∙ ap (λ r. take_frame n r s) (decode_get rest h)))
