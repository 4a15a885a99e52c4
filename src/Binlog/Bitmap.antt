-- ===== src/Binlog/Bitmap.antt =====
-- seqno_seen and mark_seqno_seen of binlog.cpp: a bit for each block, in a vector of bytes.
use udpproxy.Prelude.{
  ℕ, ◌+◌, ◌-◌, ◌*◌, ◌/◌, ◌%◌, ◌<◌, ◌≡◌, sym, ap, ◌∙◌, subst, inl, inr, Bool, false, ◌||◌, List, [],
  ◌++◌, arith, leb, ◌==◌, if◌then◌else◌, ==_iff, ne→==_false, Bool-cases, length, get_or, set,
  replicate, All, length-append, length-replicate, get_or-set_self, get_or-set_ne,
  get_or-append_replicate, get_or-past, All-append, All-set, All-replicate, All-get_or,
}
use udpproxy.Prelude.Bits.{test_bit, set_bit, test_bit-set_bit, set_bit-lt, test_bit-zero}

-- `seqno >> 3` is the byte, `seqno & 7` the bit.
unfoldable pub seqno_seen : List ℕ → ℕ → Bool
seqno_seen bitmap seqno =
    if leb (length bitmap) (seqno / 8)
    then false
    else test_bit (get_or bitmap (seqno / 8) 0) (seqno % 8)

-- `(want + 65535) & ~(size_t)65535`: the next multiple of 64 KiB.
abbrev round_up : ℕ → ℕ
round_up want = (want + 65535) / 65536 * 65536

-- `seen_bitmap.resize(round, 0)` where the byte lies outside.
grow : List ℕ → ℕ → List ℕ
grow bitmap byte =
    if leb (length bitmap) byte
    then bitmap ++ replicate (round_up (byte + 1) - length bitmap) 0
    else bitmap

unfoldable pub mark_seqno_seen : List ℕ → ℕ → List ℕ
unfolding grow
mark_seqno_seen bitmap seqno =
    let grown = grow bitmap (seqno / 8) in
    set grown (seqno / 8) (set_bit (get_or grown (seqno / 8) 0) (seqno % 8))

-- The vector holds bytes.
abbrev pub IsBytes : List ℕ → Type 0
IsBytes = All (λ b. b < 256)

get_or-grow : (m : List ℕ) (byte i : ℕ) → get_or (grow m byte) i 0 ≡ get_or m i 0
unfolding grow
get_or-grow m byte i = elim (Bool-cases (leb (length m) byte)) [
  | inl e ↦ rw e (get_or-append_replicate m _ i 0)
  | inr e ↦ rw e
]

length-grow : (m : List ℕ) (byte : ℕ) → byte < length (grow m byte)
unfolding grow
length-grow m byte = elim (Bool-cases (leb (length m) byte)) [
  | inl e ↦ rw e (
      omega (
        arith,
        length-append m (replicate (round_up (byte + 1) - length m) 0),
        length-replicate {A = ℕ} (round_up (byte + 1) - length m) 0,
      ))
  | inr e ↦ rw e (ground arith)
]

grow-IsBytes : (m : List ℕ) (byte : ℕ) → IsBytes m → IsBytes (grow m byte)
unfolding grow
grow-IsBytes m byte h = elim (Bool-cases (leb (length m) byte)) [
  | inl e ↦ rw e (All-append _ m _ h (All-replicate _ _ 0 (omega arith)))
  | inr e ↦ rw e h
]

-- Past the end every byte reads as 0, so the bound test of the code changes no answer.
seen_bits : (m : List ℕ) (s : ℕ) → seqno_seen m s ≡ test_bit (get_or m (s / 8) 0) (s % 8)
unfolding seqno_seen
seen_bits m s = elim (Bool-cases (leb (length m) (s / 8))) [
  | inl e ↦ rw (e, get_or-past m (s / 8) 0 (ground arith)) (sym (test_bit-zero (s % 8)))
  | inr e ↦ rw e
]

get_or-mark :
    (m : List ℕ) (s i : ℕ)
    → get_or (mark_seqno_seen m s) i 0
      ≡ (if s / 8 == i then set_bit (get_or m i 0) (s % 8) else get_or m i 0)
unfolding mark_seqno_seen
get_or-mark m s i = elim (Bool-cases (s / 8 == i)) [
  | inl e ↦ rw e (
      subst
        (λ j.
          get_or
            (set (grow m (s / 8)) (s / 8) (set_bit (get_or (grow m (s / 8)) (s / 8) 0) (s % 8))) j 0
          ≡ set_bit (get_or m j 0) (s % 8))
        ((==_iff (s / 8) i).0 e)
        (get_or-set_self _ (s / 8) _ 0 (length-grow m (s / 8))
          ∙ ap (λ b. set_bit b (s % 8)) (get_or-grow m (s / 8) (s / 8))))
  | inr e ↦ rw e (get_or-set_ne _ (s / 8) i _ 0 (ground arith) ∙ get_or-grow m (s / 8) i)
]

-- The bitmap is a set of sequence numbers: marking one adds it, and changes no other.
pub seqno_seen-mark :
    (m : List ℕ) (s t : ℕ)
    → IsBytes m
    → seqno_seen (mark_seqno_seen m s) t ≡ (t == s || seqno_seen m t)
seqno_seen-mark m s t h =
    rw (seen_bits (mark_seqno_seen m s) t, seen_bits m t, get_or-mark m s (t / 8))
      (elim (Bool-cases (s / 8 == t / 8)) [
        | inl e ↦
            rw
              (
                e,
                test_bit-set_bit (get_or m (t / 8) 0) (s % 8) (t % 8)
                    (All-get_or (λ b. b < 256) m (t / 8) 0 (omega arith) h) (omega arith)
                    (omega arith),
              )
              (ap (λ b. b || test_bit (get_or m (t / 8) 0) (t % 8)) (ground arith))
        | inr e ↦ rw (e, ne→==_false t s (ground arith))
      ])

pub mark-IsBytes : (m : List ℕ) (s : ℕ) → IsBytes m → IsBytes (mark_seqno_seen m s)
unfolding mark_seqno_seen
mark-IsBytes m s h =
    All-set _ (grow m (s / 8)) (s / 8) _
      (set_bit-lt _ (s % 8)
        (All-get_or (λ b. b < 256) (grow m (s / 8)) (s / 8) 0 (omega arith)
          (grow-IsBytes m (s / 8) h))
        (omega arith))
      (grow-IsBytes m (s / 8) h)

pub seqno_seen-nil : (s : ℕ) → seqno_seen [] s ≡ false
unfolding seqno_seen
seqno_seen-nil s = ground arith
