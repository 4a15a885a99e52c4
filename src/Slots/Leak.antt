-- ===== src/Slots/Leak.antt =====
-- The counter of engineers' connections when UDP engineers come and go.
use udpproxy.Prelude.{
  ℕ, zero, suc, ◌+◌, ◌%◌, ◌<◌, max, ◌≡◌, refl, sym, ap, ◌∙◌, subst, inl, inr, true, false, none,
  List, [], ◌∷◌, arith, ltb, length, All, List-cases,
}
use udpproxy.Slots.{
  Address, Slot, Table, close_slot, expire_slot, on_first, expire_udp, is_bug, is_peer, find_peer,
  first_free, map_suc, udp_timeout,
}
use udpproxy.Slots.Admission.{update, count_opened, open_udp, udp_engineer}

-- An engineer sends one datagram at `now`, and the round after the timeout closes the slot.
abbrev pub visit : Address → ℕ → Table → Table
visit a now t = expire_udp (now + udp_timeout + 1) (udp_engineer a now 0 t).1

abbrev pub visits : Address → List ℕ → Table → Table
visits a [] t = t
visits a (now ∷ later) t = visits a later (visit a now t)

abbrev pub IsFree : Slot → Type 0
IsFree s = s.used ≡ false

-- A hundred slots, all free, and both counters at `c`.
pub record Idle (c : ℕ) (t : Table) : Type 0 where
  pub free : All IsFree t.slots
  pub room : length t.slots ≡ 100
  pub count : t.conn2_count ≡ c
  pub high : t.max_conn2_count ≡ c

pub find_peer-IsFree :
    (a : Address) (n : ℕ) (ss : List Slot) → All IsFree ss → find_peer a n ss ≡ none
unfolding find_peer is_peer map_suc
find_peer-IsFree a zero ss h = refl
find_peer-IsFree a (suc n) [] h = refl
find_peer-IsFree a (suc n) (s ∷ ss) h = simp (h.0, find_peer-IsFree a n ss h.1)

pub expire-IsFree :
    (now n : ℕ) (ss : List Slot) → All IsFree ss → All IsFree (on_first n (expire_slot now) ss)
unfolding on_first expire_slot close_slot
expire-IsFree now zero ss h = h
expire-IsFree now (suc n) [] h = tt
expire-IsFree now (suc n) (s ∷ ss) h = (ground (arith, h.0), expire-IsFree now n ss h.1)

abbrev pub idle_table : ℕ → List Slot → Table
idle_table c ss = record { slots = ss; conn2_count = c; max_conn2_count = c }

-- The first of the free slots is taken.
udp_engineer_first :
    (a : Address) (now c : ℕ) (s : Slot) (ss : List Slot)
    → All IsFree (s ∷ ss)
    → c < 255
    → (udp_engineer a now 0 (idle_table c (s ∷ ss))).1
      ≡ idle_table (suc c) (open_udp a now 0 s ∷ ss)
unfolding udp_engineer count_opened update first_free find_peer open_udp
udp_engineer_first a now c s ss f h =
    let m : (c + 1) % 256 ≡ suc c = omega arith in
    let n : max c (suc c) ≡ suc c = omega arith in simp (find_peer-IsFree a c (s ∷ ss) f, f.0, m, n)

visit_first :
    (a : Address) (now c : ℕ) (s : Slot) (ss : List Slot)
    → All IsFree (s ∷ ss)
    → c < 255
    → visit a now (idle_table c (s ∷ ss))
      ≡ idle_table
          (suc c)
          (close_slot (open_udp a now 0 s) ∷ on_first c (expire_slot (now + udp_timeout + 1)) ss)
unfolding expire_udp on_first expire_slot open_udp
visit_first a now c s ss f h =
    let late : ltb (now + 10_000_000) (now + 10_000_000 + 1) ≡ true = ground arith in
    simp (udp_engineer_first a now c s ss f h, late)

length-on_first : (n : ℕ) (f : Slot → Slot) (ss : List Slot) → length (on_first n f ss) ≡ length ss
unfolding on_first
length-on_first zero f ss = refl
length-on_first (suc n) f [] = refl
length-on_first (suc n) f (s ∷ ss) = ap suc (length-on_first n f ss)

visit-Idle :
    (a : Address) (now c : ℕ) (t : Table) → c < 255 → Idle c t → Idle (suc c) (visit a now t)
unfolding close_slot
visit-Idle a now c t h i = elim (List-cases t.slots) [
  | inl e ↦ absurd (ground (arith, e, i.room))
  | inr (s, ss, e) ↦
      let same : t ≡ idle_table c (s ∷ ss) =
        λ k. record { slots = e k; conn2_count = i.count k; max_conn2_count = i.high k } in
      let f : All IsFree (s ∷ ss) = subst (All IsFree) e i.free in
      let n : length (s ∷ ss) ≡ 100 = subst (λ l. length l ≡ 100) e i.room in
      subst (λ u. Idle (suc c) (visit a now u)) (sym same)
        (subst (Idle (suc c)) (sym (visit_first a now c s ss f h)) (record {
          free = (refl, expire-IsFree (now + udp_timeout + 1) c ss f.1);
          room = ap suc (length-on_first c (expire_slot (now + udp_timeout + 1)) ss) ∙ n;
          count = refl;
          high = refl;
        }))
]

pub visits-Idle :
    (a : Address) (times : List ℕ) (c : ℕ) (t : Table)
    → c + length times < 256
    → Idle c t
    → Idle (c + length times) (visits a times t)
visits-Idle a [] c t h i = subst (λ n. Idle n t) (omega arith) i
visits-Idle a (now ∷ later) c t h i =
    subst (λ n. Idle n (visits a later (visit a now t))) (omega arith)
      (visits-Idle a later (suc c) (visit a now t) (omega arith)
        (visit-Idle a now c t (omega arith) i))

-- A process that has no engineer's slot in use and both counters at 0 is, after 101 visits of a UDP
-- engineer, each ended by the timeout before the next begins, without a used slot, and in the state
-- in which the process exits because max_conn2_count is above its limit.
pub visits_reach_bug :
    (a : Address) (times : List ℕ) (t : Table)
    → Idle 0 t
    → length times ≡ 101
    → (is_bug (visits a times t) ≡ true) × All IsFree (visits a times t).slots
unfolding is_bug
visits_reach_bug a times t i n =
    let r = visits-Idle a times 0 t (omega arith) i in (ground (arith, r.high, n), r.free)
