-- ===== src/Prelude/Bits.antt =====
-- The bits of a byte, checked by evaluation over all bytes.
use Prim.Native.Nat.{
  ℕ, zero, suc, ◌*◌, ◌+◌, ◌/◌, ◌%◌, ◌^◌, ◌<◌, bit_and, bit_or, bit_xor, bit_and-bitwise,
}
use mathlib.Core.Path.{◌≡◌, refl}
use mathlib.Core.Bool.{Bool, true, false, not, ◌&&◌, ◌||◌}
use native.Mathlib.Omega.{arith}
use udpproxy.Prelude.Tests.{◌==◌, ==_iff, ltb, ltb→lt, if◌then◌else◌}

-- A test of all numbers below a bound, by evaluation.
checked : (ℕ → Bool) → ℕ → Bool
checked test zero = true
checked test (suc bound) = if test bound then checked test bound else false

checked_at : (test : ℕ → Bool) (bound i : ℕ) → i < bound → checked test bound ≡ true → test i ≡ true
unfolding checked
checked_at test zero i small all = absurd (omega arith)
checked_at test (suc bound) i small all = ground (arith, checked_at test bound i)

-- `(b & (1u << k)) != 0`.
unfoldable pub test_bit : ℕ → ℕ → Bool
test_bit b k = not (bit_and b (2 ^ k) == 0)

-- `b |= uint8_t(1u << k)` on a byte.
unfoldable pub set_bit : ℕ → ℕ → ℕ
set_bit b k = bit_or b (2 ^ k % 256)

pub test_bit-zero : (k : ℕ) → test_bit 0 k ≡ false
unfolding test_bit
test_bit-zero k = rw (bit_and-bitwise 0 (2 ^ k))

same : Bool → Bool → Bool
same true b = b
same false b = not b

same-eq : (a b : Bool) → same a b ≡ true → a ≡ b
unfolding same
same-eq a b h = ground arith

and_true : (a b : Bool) → (a && b) ≡ true → (a ≡ true) × (b ≡ true)
and_true a b h = ground arith

-- One number holds a byte and two bit positions.
bit_law : ℕ → Bool
unfolding same test_bit set_bit
bit_law x =
    let b = x / 64 in
    let k = x / 8 % 8 in
    let j = x % 8 in
    same (test_bit (set_bit b k) j) (j == k || test_bit b j) && ltb (set_bit b k) 256

bit_table : checked bit_law 16384 ≡ true
unfolding checked bit_law
bit_table = refl

bit_law_at : (b k j : ℕ) → b < 256 → k < 8 → j < 8 → bit_law (b * 64 + (k * 8 + j)) ≡ true
bit_law_at b k j hb hk hj = checked_at bit_law 16384 _ (omega arith) bit_table

bit_law_eq :
    (x b k j : ℕ)
    → x / 64 ≡ b
    → x / 8 % 8 ≡ k
    → x % 8 ≡ j
    → bit_law x ≡ true
    → (test_bit (set_bit b k) j ≡ (j == k || test_bit b j)) × (set_bit b k < 256)
unfolding bit_law
bit_law_eq x b k j eb ek ej h =
    let law = and_true _ _ (rw (← eb, ← ek, ← ej) h) in (same-eq _ _ law.0, ltb→lt _ _ law.1)

-- Setting bit k of a byte sets that bit and no other, and leaves a byte.
pub test_bit-set_bit :
    (b k j : ℕ) → b < 256 → k < 8 → j < 8 → test_bit (set_bit b k) j ≡ (j == k || test_bit b j)
test_bit-set_bit b k j hb hk hj =
    (bit_law_eq _ b k j (omega arith) (omega arith) (omega arith) (bit_law_at b k j hb hk hj)).0

pub set_bit-lt : (b k : ℕ) → b < 256 → k < 8 → set_bit b k < 256
set_bit-lt b k hb hk =
    (bit_law_eq _ b k 0 (omega arith) (omega arith) (omega arith)
      (bit_law_at b k 0 hb hk (omega arith))).1

xor_law : ℕ → Bool
xor_law x =
    bit_xor (bit_xor (x / 256) (x % 256)) (x % 256) == x / 256
    && ltb (bit_xor (x / 256) (x % 256)) 256

xor_table : checked xor_law 65536 ≡ true
unfolding checked xor_law
xor_table = refl

xor_law_eq :
    (x a m : ℕ)
    → x / 256 ≡ a
    → x % 256 ≡ m
    → xor_law x ≡ true
    → (bit_xor (bit_xor a m) m ≡ a) × (bit_xor a m < 256)
unfolding xor_law
xor_law_eq x a m ea em h =
    let law = and_true _ _ (rw (← ea, ← em) h) in ((==_iff _ _).0 law.0, ltb→lt _ _ law.1)

-- Masking a byte twice gives it back.
pub bit_xor_twice :
    (a m : ℕ) → a < 256 → m < 256 → (bit_xor (bit_xor a m) m ≡ a) × (bit_xor a m < 256)
bit_xor_twice a m ha hm =
    xor_law_eq (a * 256 + m) a m (omega arith) (omega arith)
      (checked_at xor_law 65536 _ (omega arith) xor_table)
