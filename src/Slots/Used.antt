-- ===== src/Slots/Used.antt =====
-- How many slots are in use, and the slots' operations.
use udpproxy.Prelude.{
  ℕ, zero, suc, ◌+◌, ◌≤◌, ◌≡◌, refl, ap, ◌≢◌, inl, inr, Bool, true, false, Option, none, some, List,
  [], ◌∷◌, arith, Bool-cases, length, get_elem?,
}
use udpproxy.Slots.{Slot, close_slot, first_free, map_suc}
use udpproxy.Slots.Admission.{update, slot_used}

abbrev bit : Bool → ℕ
bit true = 1
bit false = 0

unfoldable pub used_count : List Slot → ℕ
used_count [] = 0
used_count (s ∷ ss) = bit s.used + used_count ss

pub used_count_max : (ss : List Slot) → used_count ss ≤ length ss
unfolding used_count
used_count_max [] = omega arith
used_count_max (s ∷ ss) = ground (arith, used_count_max ss)

pub length-update : (i : ℕ) (f : Slot → Slot) (ss : List Slot) → length (update i f ss) ≡ length ss
unfolding update
length-update i f [] = refl
length-update zero f (s ∷ ss) = refl
length-update (suc i) f (s ∷ ss) = ap suc (length-update i f ss)

-- A slot's operation that does not change whether it is used.
pub used_count-touch :
    (i : ℕ) (f : Slot → Slot) (ss : List Slot)
    → ((s : Slot) → (f s).used ≡ s.used)
    → used_count (update i f ss) ≡ used_count ss
unfolding used_count update
used_count-touch i f [] h = refl
used_count-touch zero f (s ∷ ss) h = simp (h s)
used_count-touch (suc i) f (s ∷ ss) h = ap (◌+◌ (bit s.used)) (used_count-touch i f ss h)

map_suc-some : (o : Option ℕ) (i : ℕ) → map_suc o ≡ some (suc i) → o ≡ some i
unfolding map_suc
map_suc-some none i h = absurd (ground (arith, h))
map_suc-some (some j) i h = ground (arith, h)

map_suc-zero : (o : Option ℕ) → map_suc o ≢ some zero
unfolding map_suc
map_suc-zero none h = ground (arith, h)
map_suc-zero (some j) h = ground (arith, h)

first_free-nil : (i : ℕ) → first_free [] ≢ some i
unfolding first_free
first_free-nil i e = ground (arith, e)

first_free-zero : (s : Slot) (ss : List Slot) → first_free (s ∷ ss) ≡ some zero → s.used ≡ false
unfolding first_free
first_free-zero s ss e = elim (Bool-cases s.used) [
  | inl u ↦ absurd (map_suc-zero (first_free ss) (simp u at e))
  | inr u ↦ u
]

first_free-suc :
    (i : ℕ) (s : Slot) (ss : List Slot)
    → first_free (s ∷ ss) ≡ some (suc i)
    → first_free ss ≡ some i
unfolding first_free
first_free-suc i s ss e = elim (Bool-cases s.used) [
  | inl u ↦ map_suc-some (first_free ss) i (simp u at e)
  | inr u ↦ absurd (ground (arith, e, u))
]

-- Taking the first free slot counts one more.
pub used_count-first_free :
    (i : ℕ) (f : Slot → Slot) (ss : List Slot)
    → first_free ss ≡ some i
    → ((s : Slot) → (f s).used ≡ true)
    → used_count (update i f ss) ≡ used_count ss + 1
unfolding used_count update
used_count-first_free i f [] e h = absurd (first_free-nil i e)
used_count-first_free zero f (s ∷ ss) e h = simp (first_free-zero s ss e, h s) (omega arith)
used_count-first_free (suc i) f (s ∷ ss) e h =
    omega (arith, used_count-first_free i f ss (first_free-suc i s ss e) h)

-- Closing a used slot counts one less.
pub used_count-close :
    (i : ℕ) (ss : List Slot)
    → slot_used i ss ≡ true
    → used_count (update i close_slot ss) + 1 ≡ used_count ss
unfolding used_count update slot_used close_slot
used_count-close i [] h = absurd (ground (arith, h))
used_count-close zero (s ∷ ss) h = simp h (omega arith)
used_count-close (suc i) (s ∷ ss) h = omega (arith, used_count-close i ss h)

pub slot_used-get :
    (i : ℕ) (s : Slot) (ss : List Slot) → get_elem? ss i ≡ some s → slot_used i ss ≡ s.used
unfolding slot_used
slot_used-get i s [] e = absurd (ground (arith, e))
slot_used-get zero s (x ∷ ss) e = ground (arith, e)
slot_used-get (suc i) s (x ∷ ss) e = slot_used-get i s ss e
