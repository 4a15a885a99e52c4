-- ===== src/WebSocket/Stream/Frames.antt =====
-- What recv makes of a stream of frames, however it arrives.
use udpproxy.Prelude.{
  ℕ, ◌-◌, ◌^◌, ◌≤◌, ◌<◌, min, ◌≡◌, sym, ap, ◌∙◌, inl, inr, true, List, [], ◌∷◌, ◌++◌, arith, ltb,
  if◌then◌else◌, Bool-cases, length, take, drop, length-append, length-take, take_all, is_nil,
  take-drop_eq, split_front,
}
use mathlib.Core.List.{append-nil, append_assoc}
use udpproxy.WebSocket.{frame, decode}
use udpproxy.WebSocket.Masked.{IsBytes, client_frame, decode-client_frame}
use udpproxy.WebSocket.Stream.{
  Socket, arrived, fill_pending, pending_size, Outcome, hung_up, nothing, overran, payload,
  take_frame, recv, fill_with, read_on,
}
use udpproxy.WebSocket.Stream.Prefix.{length-client_frame, decode-part}

-- A client's frame: the key and the payload.
pub record Frame : Type 0 where
  pub a : ℕ
  pub b : ℕ
  pub c : ℕ
  pub d : ℕ
  pub bytes : List ℕ

abbrev pub on_wire : Frame → List ℕ
on_wire f = client_frame f.a f.b f.c f.d f.bytes

abbrev pub stream : List Frame → List ℕ
stream [] = []
stream (f ∷ fs) = on_wire f ++ stream fs

abbrev pub payloads : List Frame → List (List ℕ)
payloads [] = []
payloads (f ∷ fs) = f.bytes ∷ payloads fs

-- It consists of bytes, and fits `pending`.
abbrev pub IsFrame : Frame → Type 0
IsFrame f =
    IsBytes (f.a ∷ f.b ∷ f.c ∷ f.d ∷ []) × IsBytes f.bytes × (length (on_wire f) ≤ pending_size)

-- A socket and the bytes that wait in the kernel.
abbrev pub Queue : Type 0
Queue = Socket × List ℕ

-- How many bytes a read takes, where the kernel has up to k of them ready.
abbrev pub taken : ℕ → Socket → ℕ
taken k s = min k (pending_size - length s.pending)

abbrev pub received : Outcome → List (List ℕ)
received hung_up = []
received nothing = []
received overran = []
received (payload bytes) = bytes ∷ []

pub fill_pending-arrived :
    (s : Socket) (xs : List ℕ)
    → s.is_open ≡ true
    → length xs ≤ pending_size - length s.pending
    → fill_pending (arrived xs) s ≡ record s { pending = s.pending ++ xs }
unfolding fill_pending fill_with
fill_pending-arrived s xs on h = elim (Bool-cases (ltb 0 (pending_size - length s.pending))) [
  | inl room ↦ simp (on, room, take_all (pending_size - length s.pending) xs h)
  | inr none_left ↦
      let empty : xs ≡ [] = is_nil xs (ground (arith, none_left, h)) in
      let same : fill_pending (arrived xs) s ≡ s = ground (arith, on, none_left) in
      same
      ∙ ap (λ p. record s { pending = p })
          (sym (ap (λ t. s.pending ++ t) empty ∙ append-nil s.pending))
]

-- Calls of recv with a buffer of n bytes, one for each of the `ks`: the payloads they give, and what
-- is left.
module _ (accept_val : List ℕ → List ℕ) (n : ℕ) where
  abbrev pub read_once : ℕ → Queue → Outcome × Socket
  read_once k (s, unread) = recv accept_val (arrived (take (taken k s) unread)) [] n s

  unfoldable pub polls : List ℕ → Queue → List (List ℕ) × Queue
  polls [] q = ([], q)
  polls (k ∷ ks) (s, unread) =
      let r = read_once k (s, unread) in
      let later = polls ks (r.1, drop (taken k s) unread) in (received r.0 ++ later.0, later.1)

  read_open :
      (s : Socket)
      → s.is_open ≡ true
      → s.done_headers ≡ true
      → (if s.is_open then read_on accept_val [] n s else (hung_up, s))
        ≡ take_frame n (decode s.pending) s
  unfolding read_on
  read_open s on done = simp (on, done)

  recv-open :
      (s : Socket) (xs : List ℕ)
      → s.is_open ≡ true
      → s.done_headers ≡ true
      → length xs ≤ pending_size - length s.pending
      → recv accept_val (arrived xs) [] n s
        ≡ take_frame n (decode (s.pending ++ xs)) (record s { pending = s.pending ++ xs })
  unfolding recv
  recv-open s xs on done room =
      ap (λ t. if t.is_open then read_on accept_val [] n t else (hung_up, t))
        (fill_pending-arrived s xs on room)
      ∙ read_open (record s { pending = s.pending ++ xs }) on done

  abbrev pub IsReady : Socket → Type 0
  IsReady s = (s.is_open ≡ true) × (s.done_headers ≡ true) × (length s.pending ≤ pending_size)

  -- What stands in `pending` for decode.
  abbrev pub filled : ℕ → Queue → List ℕ
  filled k (s, unread) = s.pending ++ take (taken k s) unread

  pub read_once-ready :
      (k : ℕ) (s : Socket) (unread : List ℕ)
      → IsReady s
      → read_once k (s, unread)
        ≡ take_frame n (decode (filled k (s, unread))) (record s { pending = filled k (s, unread) })
  read_once-ready k s unread (on, done, fits) =
      recv-open s (take (taken k s) unread) on done
        (let l = length-take (taken k s) unread in omega (arith, l, fits))

  pub length-filled :
      (k : ℕ) (s : Socket) (unread : List ℕ)
      → IsReady s
      → length (filled k (s, unread)) ≤ pending_size
  length-filled k s unread (on, done, fits) =
      let l = length-take (taken k s) unread in
      let a = length-append s.pending (take (taken k s) unread) in omega (arith, l, a, fits)

  pub filled-rest :
      (k : ℕ) (s : Socket) (unread all : List ℕ)
      → s.pending ++ unread ≡ all
      → filled k (s, unread) ++ drop (taken k s) unread ≡ all
  filled-rest k s unread all e =
      append_assoc s.pending (take (taken k s) unread) (drop (taken k s) unread)
      ∙ (ap (λ t. s.pending ++ t) (take-drop_eq (taken k s) unread) ∙ e)

  -- A read: the first frame if all of it is there, or nothing.
  pub read_once-frame :
      (k : ℕ) (s : Socket) (unread : List ℕ) (f : Frame) (rest : List ℕ)
      → IsReady s
      → IsFrame f
      → pending_size ≤ n
      → s.pending ++ unread ≡ on_wire f ++ rest
      → length (on_wire f) ≤ length (filled k (s, unread))
      → let left = drop (length (on_wire f)) (filled k (s, unread)) in
        (read_once k (s, unread) ≡ (payload f.bytes, record s { pending = left }))
        × (left ++ drop (taken k s) unread ≡ rest)
        × IsReady (record s { pending = left })
  unfolding take_frame
  read_once-frame k s unread f rest ready (key, hb, fits) room e h =
      let split =
        split_front (on_wire f) (filled k (s, unread)) (drop (taken k s) unread) rest
          (filled-rest k s unread (on_wire f ++ rest) e) h in
      let left = drop (length (on_wire f)) (filled k (s, unread)) in
      let size = length-client_frame f.a f.b f.c f.d f.bytes in
      let whole : decode (filled k (s, unread)) ≡ frame f.bytes (length (on_wire f)) =
        ap decode split.0
        ∙ decode-client_frame f.a f.b f.c f.d f.bytes left key hb (omega (arith, size, fits)) in
      let total = ap length split.0 ∙ length-append (on_wire f) left in
      let most = length-filled k s unread ready in
      (
        read_once-ready k s unread ready
            ∙ (ap (λ r. take_frame n r (record s { pending = filled k (s, unread) })) whole
                ∙ ap (λ b. (payload b, record s { pending = left }))
                    (take_all n f.bytes (omega (arith, size, fits, room)))),
        split.1,
        (ready.0, ready.1, omega (arith, total, most)),
      )

  pub read_once-part :
      (k : ℕ) (s : Socket) (unread : List ℕ) (f : Frame) (rest : List ℕ)
      → IsReady s
      → length f.bytes < 2 ^ 64 - 14
      → s.pending ++ unread ≡ on_wire f ++ rest
      → length (filled k (s, unread)) < length (on_wire f)
      → read_once k (s, unread) ≡ (nothing, record s { pending = filled k (s, unread) })
  unfolding take_frame
  read_once-part k s unread f rest ready small e h =
      let part =
        decode-part f.a f.b f.c f.d f.bytes rest (filled k (s, unread)) (drop (taken k s) unread)
          small (filled-rest k s unread (on_wire f ++ rest) e) h in
      read_once-ready k s unread ready
      ∙ ap (λ r. take_frame n r (record s { pending = filled k (s, unread) })) part
