-- ===== src/Slots/Forward.antt =====
-- Which slots a forwarded message reaches.
use udpproxy.Prelude.{
  ℕ, zero, suc, ◌+◌, ◌≤◌, ◌<◌, ◌≡◌, refl, ap, ◌∙◌, ◌≢◌, inl, inr, Bool, true, false, List, [], ◌∷◌,
  arith, ltb, if◌then◌else◌, Bool-cases, get_elem?,
}
use udpproxy.Slots.{
  Slot, Table, close_slot, on_first, count_closed, UserSide, user_tcp, Sent, untouched, delivered,
  closed, outcome, after_send, count_sent, forward_from, forward, count_tx,
}
use udpproxy.Slots.Admission.{update, tcp_eof}

count_sent_max :
    (r : Sent) (t : Table)
    → 0 < t.max_conn2_count
    → t.max_conn2_count < 256
    → (count_sent r t).max_conn2_count ≤ t.max_conn2_count
unfolding count_closed
count_sent_max untouched t h k = omega arith
count_sent_max delivered t h k = omega arith
count_sent_max closed t h k = ground arith

forward_from_past :
    (user : UserSide) (sent : ℕ → Bool) (i j : ℕ) (ss : List Slot) (t : Table)
    → t.max_conn2_count ≤ i + j
    → t.max_conn2_count < 256
    → get_elem? (forward_from user sent i ss t).0 j ≡ get_elem? ss j
unfolding forward_from count_closed
forward_from_past user sent i j [] t h k = refl
forward_from_past user sent i zero (s ∷ ss) t h k =
    let past : ltb i t.max_conn2_count ≡ false = ground arith in simp past
forward_from_past user sent i (suc j) (s ∷ ss) t h k = elim (Bool-cases (ltb i t.max_conn2_count)) [
  | inr e ↦ simp e
  | inl e ↦
      let r = outcome user (sent i) s in
      let m = count_sent_max r t (ground (arith, e)) k in
      simp
        (e, forward_from_past user sent (i + 1) j ss (count_sent r t) (omega arith) (omega arith))
]

count_eof_max :
    (i j : ℕ) (t : Table)
    → t.conn2_count ≡ suc j
    → t.max_conn2_count ≡ suc j
    → j < 100
    → (tcp_eof i t).max_conn2_count ≡ j
unfolding tcp_eof count_closed
count_eof_max i j t c m h = ground (arith, c, m, h)

update_ne :
    (i j : ℕ) (f : Slot → Slot) (ss : List Slot)
    → i ≢ j
    → get_elem? (update i f ss) j ≡ get_elem? ss j
unfolding update
update_ne i j f [] h = refl
update_ne zero zero f (s ∷ ss) h = absurd (h refl)
update_ne zero (suc j) f (s ∷ ss) h = refl
update_ne (suc i) zero f (s ∷ ss) h = refl
update_ne (suc i) (suc j) f (s ∷ ss) h = update_ne i j f ss (λ e. h (ap suc e))

eof_slots : (i j : ℕ) (t : Table) → i ≢ j → get_elem? (tcp_eof i t).slots j ≡ get_elem? t.slots j
unfolding tcp_eof count_closed
eof_slots i j t h = update_ne i j close_slot t.slots h

-- When both counters are at j + 1 and the TCP connection of another slot ends, slot j is as it was,
-- connected where it was connected, and a message then forwarded does not reach it, whether the user
-- is on UDP or TCP and whatever the sockets answer.
pub eof_strands_last :
    (user : UserSide) (sent : ℕ → Bool) (i j : ℕ) (t : Table)
    → i ≢ j
    → t.conn2_count ≡ suc j
    → t.max_conn2_count ≡ suc j
    → j < 100
    → (get_elem? (tcp_eof i t).slots j ≡ get_elem? t.slots j)
      × (get_elem? (forward user sent (tcp_eof i t)).slots j ≡ get_elem? t.slots j)
unfolding forward
eof_strands_last user sent i j t h c m k =
    let low = count_eof_max i j t c m k in
    let past =
      forward_from_past user sent 0 j (tcp_eof i t).slots (tcp_eof i t) (omega arith)
        (omega arith) in
    (eof_slots i j t h, past ∙ eof_slots i j t h)

-- What a message that every socket takes does to a slot.
pub bump : Slot → Slot
bump s = if s.used then count_tx s else s

forward_from_all :
    (i m : ℕ) (ss : List Slot) (t : Table)
    → t.max_conn2_count ≡ i + m
    → forward_from user_tcp (λ n. true) i ss t ≡ (on_first m bump ss, t)
unfolding forward_from on_first bump after_send outcome
forward_from_all i zero [] t h = refl
forward_from_all i (suc m) [] t h = refl
forward_from_all i zero (s ∷ ss) t h =
    let past : ltb i t.max_conn2_count ≡ false = ground arith in simp past
forward_from_all i (suc m) (s ∷ ss) t h =
    let here : ltb i t.max_conn2_count ≡ true = ground arith in
    let rest = forward_from_all (i + 1) m ss t (omega arith) in
    elim (Bool-cases s.used) [ inl u ↦ simp (here, u, rest) | inr u ↦ simp (here, u, rest) ]

-- With a user on TCP, a message that every connection's socket takes changes no counter and, in the
-- slots below max_conn2_count, counts one message sent for each used slot and changes nothing else.
pub forward_counts_all :
    (t : Table)
    → forward user_tcp (λ n. true) t ≡ record t { slots = on_first t.max_conn2_count bump t.slots }
unfolding forward
forward_counts_all t = simp (forward_from_all 0 t.max_conn2_count t.slots t (omega arith))
