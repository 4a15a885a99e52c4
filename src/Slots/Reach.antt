-- ===== src/Slots/Reach.antt =====
-- What a message whose sends succeed does to a slot.
use udpproxy.Prelude.{
  ℕ, zero, suc, ◌+◌, ◌<◌, ◌≡◌, refl, ap, ◌∙◌, sym, subst, inl, inr, Bool, true, ◌&&◌, ◌||◌, some,
  List, [], ◌∷◌, arith, ltb, Bool-cases, get_elem?, is_some,
}
use mathlib.Core.Option.{some-injective}
use udpproxy.Slots.{
  Slot, Table, UserSide, user_udp, user_tcp, delivered, outcome, after_send, count_sent, count_tx,
  forward_from, forward,
}

-- A used slot that the loop sends to: with a user on UDP, on UDP or with a socket.
abbrev pub IsReached : UserSide → Slot → Type 0
IsReached user_tcp s = s.used ≡ true
IsReached user_udp s = (s.used && (s.is_udp || is_some s.sock)) ≡ true

outcome_reached : (user : UserSide) (s : Slot) → IsReached user s → outcome user true s ≡ delivered
unfolding outcome
outcome_reached user_tcp s h = ground (arith, h)
outcome_reached user_udp s h = ground (arith, h)

outcome_counts : (user : UserSide) (s : Slot) (t : Table) → count_sent (outcome user true s) t ≡ t
unfolding outcome
outcome_counts user_tcp s t = ground arith
outcome_counts user_udp s t = ground arith

module _ (user : UserSide) (sent : ℕ → Bool) (takes : (i : ℕ) → sent i ≡ true) where
  same_table : (i : ℕ) (s : Slot) (t : Table) → count_sent (outcome user (sent i) s) t ≡ t
  same_table i s t = ap (λ b. count_sent (outcome user b s) t) (takes i) ∙ outcome_counts user s t

  forward_from_table : (i : ℕ) (ss : List Slot) (t : Table) → (forward_from user sent i ss t).1 ≡ t
  unfolding forward_from
  forward_from_table i [] t = refl
  forward_from_table i (s ∷ ss) t = elim (Bool-cases (ltb i t.max_conn2_count)) [
    | inr e ↦ rw e refl
    | inl e ↦ rw (e, same_table i s t) (forward_from_table (i + 1) ss t)
  ]

  forward_from_reached :
      (i j : ℕ) (ss : List Slot) (t : Table) (slot : Slot)
      → i + j < t.max_conn2_count
      → get_elem? ss j ≡ some slot
      → IsReached user slot
      → get_elem? (forward_from user sent i ss t).0 j ≡ some (count_tx slot)
  unfolding forward_from after_send
  forward_from_reached i j [] t slot h e r = absurd (ground (arith, e))
  forward_from_reached i zero (s ∷ ss) t slot h e r =
      let here : ltb i t.max_conn2_count ≡ true = ground (arith, h) in
      let same = some-injective s slot e in
      let goes =
        ap (λ b. outcome user b s) (takes i)
        ∙ outcome_reached user s (subst (IsReached user) (sym same) r) in
      rw here (ap some (ap (λ o. after_send o s) goes ∙ ap count_tx same))
  forward_from_reached i (suc j) (s ∷ ss) t slot h e r =
      let here : ltb i t.max_conn2_count ≡ true = ground (arith, h) in
      rw (here, same_table i s t) (forward_from_reached (i + 1) j ss t slot (omega (arith, h)) e r)

  -- A used slot within the bound counts the message, and the bound stays.
  pub forward_reached :
      (j : ℕ) (t : Table) (slot : Slot)
      → j < t.max_conn2_count
      → get_elem? t.slots j ≡ some slot
      → IsReached user slot
      → (get_elem? (forward user sent t).slots j ≡ some (count_tx slot))
        × ((forward user sent t).max_conn2_count ≡ t.max_conn2_count)
  unfolding forward
  forward_reached j t slot h e r = (
    forward_from_reached 0 j t.slots t slot (omega (arith, h)) e r,
    ap (λ (u : Table). u.max_conn2_count) (forward_from_table 0 t.slots t),
  )
