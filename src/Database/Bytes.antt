-- ===== src/Database/Bytes.antt =====
-- Numbers in memory: little-endian, as on the machines that the proxy runs on.
use native.Mathlib.Nat.{pow-suc}
use udpproxy.Prelude.{
  ℕ, zero, suc, ◌+◌, ◌*◌, ◌/◌, ◌%◌, ◌^◌, ◌<◌, ◌≡◌, refl, sym, ap, ◌∙◌, List, [], ◌∷◌, arith, length,
  take, drop,
}

-- The `k` bytes of a number.
unfoldable pub le_bytes : ℕ → ℕ → List ℕ
le_bytes zero n = []
le_bytes (suc k) n = n % 256 ∷ le_bytes k (n / 256)

unfoldable pub of_le : List ℕ → ℕ
of_le [] = 0
of_le (b ∷ bs) = b + 256 * of_le bs

pub of_le-le_bytes : (k n : ℕ) → n < 256 ^ k → of_le (le_bytes k n) ≡ n
unfolding of_le le_bytes
of_le-le_bytes zero n h = omega arith
of_le-le_bytes (suc k) n h =
    omega (arith, of_le-le_bytes k (n / 256) (omega (arith, pow-suc 256 k)))

pub length-le_bytes : (k n : ℕ) → length (le_bytes k n) ≡ k
unfolding le_bytes
length-le_bytes zero n = refl
length-le_bytes (suc k) n = ap suc (length-le_bytes k (n / 256))

-- Two numbers with the same bytes are equal.
pub le_bytes-injective :
    (k m n : ℕ) → m < 256 ^ k → n < 256 ^ k → le_bytes k m ≡ le_bytes k n → m ≡ n
le_bytes-injective k m n hm hn e =
    sym (of_le-le_bytes k m hm) ∙ (ap of_le e ∙ of_le-le_bytes k n hn)

-- `count` bytes at an offset.
abbrev pub field : List ℕ → ℕ → ℕ → List ℕ
field bs offset count = take count (drop offset bs)
