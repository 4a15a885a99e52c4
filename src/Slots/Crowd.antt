-- ===== src/Slots/Crowd.antt =====
-- The table of engineers' connections when both counters have reached their limit and no slot is used.
use udpproxy.Prelude.{
  ℕ, zero, suc, ◌+◌, ◌%◌, ◌<◌, max, ◌≡◌, refl, sym, ap, ◌∙◌, subst, inl, inr, false, Option, some,
  List, [], ◌∷◌, arith, length, All, List-cases,
}
use udpproxy.Slots.{
  Address, Slot, Table, expire_slot, on_first, expire_udp, is_bug, find_peer, first_free,
}
use udpproxy.Slots.Admission.{update, open_udp, count_opened, udp_engineer, is_tcp}
use udpproxy.Slots.Leak.{IsFree, Idle, find_peer-IsFree, idle_table}

-- No TCP connection is read here.
abbrev pub NotTcp : Slot → Type 0
NotTcp s = is_tcp s ≡ false

free-NotTcp : (ss : List Slot) → All IsFree ss → All NotTcp ss
unfolding is_tcp
free-NotTcp [] h = tt
free-NotTcp (s ∷ ss) h = (ground (arith, h.0), free-NotTcp ss h.1)

expire-same : (now n : ℕ) (ss : List Slot) → All IsFree ss → on_first n (expire_slot now) ss ≡ ss
unfolding on_first expire_slot
expire-same now zero ss h = refl
expire-same now (suc n) [] h = refl
expire-same now (suc n) (s ∷ ss) h = simp (h.0, expire-same now n ss h.1)

pub expire_udp-Idle :
    (now : ℕ) (t : Table) → Idle 100 t → (is_bug t ≡ false) × Idle 100 (expire_udp now t)
unfolding is_bug expire_udp
expire_udp-Idle now t h =
    let same = expire-same now t.max_conn2_count t.slots h.free in
    (
      ground (arith, h.high),
      record {
        free = subst (All IsFree) (sym same) h.free;
        room = ap length same ∙ h.room;
        count = h.count;
        high = h.high;
      },
    )

opened :
    (a : Address) (now clock c : ℕ) (s : Slot) (ss : List Slot)
    → All IsFree (s ∷ ss)
    → c < 255
    → udp_engineer a now clock (idle_table c (s ∷ ss))
      ≡ (some 0, idle_table (suc c) (open_udp a now clock s ∷ ss))
unfolding udp_engineer count_opened update first_free find_peer open_udp
opened a now clock c s ss f h =
    let m : (c + 1) % 256 ≡ suc c = omega arith in
    let n : max c (suc c) ≡ suc c = omega arith in simp (find_peer-IsFree a c (s ∷ ss) f, f.0, m, n)

-- A new UDP peer takes the first slot and the bound of the loops goes beyond the last.
pub udp_engineer-Idle :
    (a : Address) (now clock : ℕ) (t : Table)
    → Idle 100 t
    → let r = udp_engineer a now clock t in
      (r.0 ≡ some 0)
      × All NotTcp (r.1).slots
      × (length (r.1).slots ≡ 100)
      × ((r.1).max_conn2_count ≡ 101)
unfolding open_udp is_tcp
udp_engineer-Idle a now clock t h = elim (List-cases t.slots) [
  | inl e ↦ absurd (ground (arith, e, h.room))
  | inr (s, ss, e) ↦
      let same : t ≡ idle_table 100 (s ∷ ss) =
        λ k. record { slots = e k; conn2_count = h.count k; max_conn2_count = h.high k } in
      let f : All IsFree (s ∷ ss) = subst (All IsFree) e h.free in
      let n : length (s ∷ ss) ≡ 100 = subst (λ l. length l ≡ 100) e h.room in
      let r = ap (udp_engineer a now clock) same ∙ opened a now clock 100 s ss f (omega arith) in
      subst
        (λ (r : Option ℕ × Table).
          (r.0 ≡ some 0)
          × All NotTcp (r.1).slots
          × (length (r.1).slots ≡ 100)
          × ((r.1).max_conn2_count ≡ 101))
        (sym r) (refl, (refl, free-NotTcp ss f.1), n, refl)
]
