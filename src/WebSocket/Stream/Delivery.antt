-- ===== src/WebSocket/Stream/Delivery.antt =====
-- Which payloads a WebSocket delivers, and when.
use udpproxy.Prelude.{
  ℕ, ◌-◌, ◌^◌, ◌≤◌, ◌<◌, ◌≡◌, refl, sym, ap, ◌∙◌, subst, inl, inr, List, [], ◌∷◌, ◌++◌, arith, leb,
  Bool-cases, length, take, drop, All, length-append, length-take, append_nil_left,
}
use udpproxy.WebSocket.{decode}
use udpproxy.WebSocket.Stream.{take_frame, Outcome, Socket, pending_size, nothing}
use udpproxy.WebSocket.Stream.Prefix.{length-client_frame}
use udpproxy.WebSocket.Stream.Frames.{
  Frame, on_wire, stream, payloads, IsFrame, Queue, taken, received, read_once, polls, IsReady,
  filled, read_once-ready, read_once-frame, read_once-part, length-filled, filled-rest,
}

frame_small : (f : Frame) → IsFrame f → length f.bytes < 2 ^ 64 - 14
frame_small f h = let size = length-client_frame f.a f.b f.c f.d f.bytes in omega (arith, size, h.2)

module _ (accept_val : List ℕ → List ℕ) (n : ℕ) where
  -- The payloads so far are those of the first frames, and the bytes left are those of the rest.
  abbrev pub IsDelivered : List Frame → List (List ℕ) × Queue → Type 0
  IsDelivered fs r =
      (done : List Frame) × (rest : List Frame) × (fs ≡ done ++ rest)
      × (r.0 ≡ payloads done)
      × (r.1.0.pending ++ r.1.1 ≡ stream rest)

  read_once-empty :
      (k : ℕ) (s : Socket) (unread : List ℕ)
      → IsReady accept_val n s
      → s.pending ++ unread ≡ []
      → read_once accept_val n k (s, unread)
        ≡ (nothing, record s { pending = filled accept_val n k (s, unread) })
  unfolding decode take_frame
  read_once-empty k s unread ready e =
      let none_there =
        append_nil_left (filled accept_val n k (s, unread)) (drop (taken k s) unread)
          (filled-rest accept_val n k s unread [] e) in
      read_once-ready accept_val n k s unread ready
      ∙ ap (λ p. take_frame n (decode p) (record s { pending = filled accept_val n k (s, unread) }))
          none_there

  -- The calls after one call, whose outcome is known.
  abbrev after_one : List ℕ → List ℕ → Outcome × Socket → List (List ℕ) × Queue
  after_one ks unread r =
      let later = polls accept_val n ks (r.1, unread) in (received r.0 ++ later.0, later.1)

  -- However the bytes of any frames that fit the buffer arrive, in pieces that part or join frames,
  -- and however often recv is called, with a buffer of at least 1023 bytes, after the handshake: the
  -- payloads come whole, in order, none twice and none left out, and all that has not been delivered
  -- still stands in the buffer or in the kernel.
  pub polls-IsDelivered :
      (ks : List ℕ) (fs : List Frame) (s : Socket) (unread : List ℕ)
      → All IsFrame fs
      → IsReady accept_val n s
      → pending_size ≤ n
      → s.pending ++ unread ≡ stream fs
      → IsDelivered fs (polls accept_val n ks (s, unread))
  unfolding polls
  polls-IsDelivered [] fs s unread all ready room e = ([], fs, refl, refl, e)
  polls-IsDelivered (k ∷ ks) [] s unread all ready room e =
      subst (λ r. IsDelivered [] (after_one ks (drop (taken k s) unread) r))
        (sym (read_once-empty k s unread ready e))
        (polls-IsDelivered ks [] (record s { pending = filled accept_val n k (s, unread) })
          (drop (taken k s) unread) tt
          (ready.0, ready.1, length-filled accept_val n k s unread ready) room
          (filled-rest accept_val n k s unread [] e))
  polls-IsDelivered (k ∷ ks) (f ∷ fs) s unread all ready room e =
      elim (Bool-cases (leb (length (on_wire f)) (length (filled accept_val n k (s, unread))))) [
        | inl whole ↦
            let r =
              read_once-frame accept_val n k s unread f (stream fs) ready all.0 room e
                (ground (arith, whole)) in
            let left = drop (length (on_wire f)) (filled accept_val n k (s, unread)) in
            let (done, rest, split, out, queue) =
              polls-IsDelivered ks fs
                (record s {
                  pending = drop (length (on_wire f)) (filled accept_val n k (s, unread));
                })
                (drop (taken k s) unread) all.1 r.2 room r.1 in
            subst (λ o. IsDelivered (f ∷ fs) (after_one ks (drop (taken k s) unread) o)) (sym r.0)
              (f ∷ done, rest, ap (λ t. f ∷ t) split, ap (λ t. f.bytes ∷ t) out, queue)
        | inr part ↦
            let r =
              read_once-part accept_val n k s unread f (stream fs) ready (frame_small f all.0) e
                (ground (arith, part)) in
            subst (λ o. IsDelivered (f ∷ fs) (after_one ks (drop (taken k s) unread) o)) (sym r)
              (polls-IsDelivered ks (f ∷ fs)
                (record s { pending = filled accept_val n k (s, unread) }) (drop (taken k s) unread)
                all (ready.0, ready.1, length-filled accept_val n k s unread ready) room
                (filled-rest accept_val n k s unread (stream (f ∷ fs)) e))
      ]

  -- A read that takes all that fits has the first frame in the buffer.
  filled-whole :
      (k : ℕ) (s : Socket) (unread : List ℕ) (f : Frame) (rest : List ℕ)
      → IsReady accept_val n s
      → length (on_wire f) ≤ pending_size
      → pending_size ≤ k
      → s.pending ++ unread ≡ on_wire f ++ rest
      → length (on_wire f) ≤ length (filled accept_val n k (s, unread))
  filled-whole k s unread f rest ready fits big e =
      let t = length-take (taken k s) unread in
      let a = length-append s.pending (take (taken k s) unread) in
      let all =
        sym (length-append s.pending unread) ∙ (ap length e ∙ length-append (on_wire f) rest) in
      omega (arith, t, a, all, fits, big)

  -- Frames that fit the buffer, with the handshake done and recv called with a buffer of at least
  -- 1023 bytes: as many calls as there are frames, each of which finds in the kernel all that it has
  -- room for, deliver every payload, in order.
  pub polls_deliver :
      (ks : List ℕ) (fs : List Frame) (s : Socket) (unread : List ℕ)
      → All IsFrame fs
      → IsReady accept_val n s
      → pending_size ≤ n
      → s.pending ++ unread ≡ stream fs
      → length ks ≡ length fs
      → All (λ k. pending_size ≤ k) ks
      → (polls accept_val n ks (s, unread)).0 ≡ payloads fs
  unfolding polls
  polls_deliver [] [] s unread all ready room e same big = refl
  polls_deliver [] (f ∷ fs) s unread all ready room e same big = absurd (omega (arith, same))
  polls_deliver (k ∷ ks) [] s unread all ready room e same big = absurd (omega (arith, same))
  polls_deliver (k ∷ ks) (f ∷ fs) s unread all ready room e same big =
      let whole = filled-whole k s unread f (stream fs) ready all.0.2 big.0 e in
      let r = read_once-frame accept_val n k s unread f (stream fs) ready all.0 room e whole in
      let later =
        polls_deliver ks fs
          (record s { pending = drop (length (on_wire f)) (filled accept_val n k (s, unread)) })
          (drop (taken k s) unread) all.1 r.2 room r.1 (omega (arith, same)) big.1 in
      subst (λ o. (after_one ks (drop (taken k s) unread) o).0 ≡ payloads (f ∷ fs)) (sym r.0)
        (ap (λ t. f.bytes ∷ t) later)

  -- A frame of more than 1023 bytes is never delivered, nor is anything behind it, however often
  -- recv is called and whatever arrives.
  pub polls_stall :
      (ks : List ℕ) (f : Frame) (rest : List ℕ) (s : Socket) (unread : List ℕ)
      → length f.bytes < 2 ^ 64 - 14
      → pending_size < length (on_wire f)
      → IsReady accept_val n s
      → s.pending ++ unread ≡ on_wire f ++ rest
      → (polls accept_val n ks (s, unread)).0 ≡ []
  unfolding polls
  polls_stall [] f rest s unread small long ready e = refl
  polls_stall (k ∷ ks) f rest s unread small long ready e =
      let most = length-filled accept_val n k s unread ready in
      let r =
        read_once-part accept_val n k s unread f rest ready small e (omega (arith, most, long)) in
      subst (λ o. (after_one ks (drop (taken k s) unread) o).0 ≡ []) (sym r)
        (polls_stall ks f rest (record s { pending = filled accept_val n k (s, unread) })
          (drop (taken k s) unread) small long
          (ready.0, ready.1, length-filled accept_val n k s unread ready)
          (filled-rest accept_val n k s unread (on_wire f ++ rest) e))
