-- ===== src/Slots/Counted.antt =====
-- conn2_count counts the used slots, as long as no UDP engineer times out.
use udpproxy.Prelude.{
  ℕ, zero, suc, ◌≡◌, refl, sym, ◌∙◌, inl, inr, true, false, ◌&&◌, some, List, [], ◌∷◌, arith, ltb,
  leb, Bool-cases, Option-cases, length, get_elem?,
}
use udpproxy.Slots.{Address, Slot, Table, close_slot, count_closed, find_peer, first_free, dec8}
use udpproxy.Slots.Used.{
  used_count, used_count_max, length-update, used_count-touch, used_count-first_free,
  used_count-close, slot_used-get,
}
use udpproxy.Slots.Admission.{
  update, count_opened, touch, open_udp, open_tcp, udp_engineer, tcp_accept, tcp_eof, count_dropped,
  slot_used, drop_one, is_tcp, read_tcp,
}

-- What can happen to the engineers' slots besides the timeout of a UDP engineer.
pub data Event : Type 0 where
  datagram : Address → ℕ → ℕ → Event
  connection : Address → ℕ → ℕ → Event
  hangup : ℕ → Event
  dropped : ℕ → Event

pub handle_event : Event → Table → Table
handle_event (datagram a now clock) t = (udp_engineer a now clock t).1
handle_event (connection a fd clock) t = (tcp_accept a fd clock t).1
handle_event (hangup i) t = read_tcp i t
handle_event (dropped i) t = (drop_one i (false, t)).1

pub handle_events : List Event → Table → Table
handle_events [] t = t
handle_events (e ∷ es) t = handle_events es (handle_event e t)

-- The table has its hundred slots and conn2_count is the number of those in use.
pub record IsCounted (t : Table) : Type 0 where
  pub room : length t.slots ≡ 100
  pub counted : t.conn2_count ≡ used_count t.slots

opened-IsCounted :
    (i : ℕ) (f : Slot → Slot) (t : Table)
    → first_free t.slots ≡ some i
    → ((s : Slot) → (f s).used ≡ true)
    → IsCounted t
    → IsCounted (count_opened (record t { slots = update i f t.slots }))
unfolding count_opened
opened-IsCounted i f t e h c = record {
  room = length-update i f t.slots ∙ c.room;
  counted =
      let more = used_count-first_free i f t.slots e h in
      let most = used_count_max (update i f t.slots) in
      let len = length-update i f t.slots in omega (arith, c.room, c.counted, more, most, len);
}

datagram-IsCounted :
    (a : Address) (now clock : ℕ) (t : Table)
    → IsCounted t
    → IsCounted (udp_engineer a now clock t).1
unfolding udp_engineer count_opened touch open_udp
datagram-IsCounted a now clock t c = elim (Option-cases (find_peer a t.max_conn2_count t.slots)) [
  | inr (i, e) ↦
      rw (udp_engineer, e)
        (record {
          room = length-update i (touch now) t.slots ∙ c.room;
          counted = c.counted ∙ sym (used_count-touch i (touch now) t.slots (λ s. refl));
        })
  | inl n ↦ elim (Option-cases (first_free t.slots)) [
    | inl m ↦ rw (udp_engineer, n, m) c
    | inr (i, e) ↦
        rw (udp_engineer, n, e) (opened-IsCounted i (open_udp a now clock) t e (λ s. refl) c)
  ]
]

connection-IsCounted :
    (a : Address) (fd clock : ℕ) (t : Table) → IsCounted t → IsCounted (tcp_accept a fd clock t).1
unfolding tcp_accept open_tcp
connection-IsCounted a fd clock t c = elim (Bool-cases (leb 100 t.conn2_count)) [
  | inl f ↦ rw f c
  | inr f ↦ elim (Option-cases (first_free t.slots)) [
    | inl m ↦ rw (f, m) c
    | inr (i, e) ↦ rw (f, e) (opened-IsCounted i (open_tcp a fd clock) t e (λ s. refl) c)
  ]
]

closed-IsCounted :
    (i c m : ℕ) (t : Table)
    → slot_used i t.slots ≡ true
    → IsCounted t
    → c ≡ dec8 t.conn2_count
    → IsCounted
        (record { slots = update i close_slot t.slots; conn2_count = c; max_conn2_count = m })
closed-IsCounted i c m t u k e = record {
  room = length-update i close_slot t.slots ∙ k.room;
  counted =
      let less = used_count-close i t.slots u in
      let most = used_count_max t.slots in omega (arith, k.room, k.counted, less, most, e);
}

is_tcp_used : (s : Slot) → is_tcp s ≡ true → s.used ≡ true
unfolding is_tcp
is_tcp_used s h = ground (arith, h)

hangup-IsCounted : (i : ℕ) (t : Table) → IsCounted t → IsCounted (read_tcp i t)
unfolding read_tcp tcp_eof count_closed
hangup-IsCounted i t c = elim (Option-cases (get_elem? t.slots i)) [
  | inl e ↦ rw (read_tcp, e) c
  | inr (s, e) ↦ elim (Bool-cases (ltb i t.max_conn2_count && is_tcp s)) [
    | inr f ↦ rw (read_tcp, e, f) c
    | inl f ↦
        let used = is_tcp_used s (ground (arith, f)) in
        rw (read_tcp, e, f) (closed-IsCounted i _ _ t (slot_used-get i s t.slots e ∙ used) c refl)
  ]
]

dropped-IsCounted : (i : ℕ) (t : Table) → IsCounted t → IsCounted (drop_one i (false, t)).1
unfolding drop_one count_dropped
dropped-IsCounted zero t c = c
dropped-IsCounted (suc i) t c = elim (Bool-cases (ltb i 100 && slot_used i t.slots)) [
  | inr f ↦ rw f c
  | inl f ↦
      let u : slot_used i t.slots ≡ true = ground (arith, f) in
      let less = used_count-close i t.slots u in
      let some_open : ltb 0 t.conn2_count ≡ true = ground (arith, less, c.counted) in
      rw (f, some_open) (closed-IsCounted i _ _ t u c refl)
]

-- Whatever datagrams, connections, hang-ups and drop requests arrive, and in whatever order, the
-- table keeps its hundred slots, and conn2_count stays the number of those that are in use.
pub handle_events-IsCounted :
    (es : List Event) (t : Table) → IsCounted t → IsCounted (handle_events es t)
unfolding handle_events handle_event
handle_events-IsCounted [] t c = c
handle_events-IsCounted (datagram a now clock ∷ es) t c =
    handle_events-IsCounted es (udp_engineer a now clock t).1 (datagram-IsCounted a now clock t c)
handle_events-IsCounted (connection a fd clock ∷ es) t c =
    handle_events-IsCounted es (tcp_accept a fd clock t).1 (connection-IsCounted a fd clock t c)
handle_events-IsCounted (hangup i ∷ es) t c =
    handle_events-IsCounted es (read_tcp i t) (hangup-IsCounted i t c)
handle_events-IsCounted (dropped i ∷ es) t c =
    handle_events-IsCounted es (drop_one i (false, t)).1 (dropped-IsCounted i t c)
