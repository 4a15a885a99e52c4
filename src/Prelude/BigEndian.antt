-- ===== src/Prelude/BigEndian.antt =====
-- Numbers in network order.
use Prim.Native.Nat.{ℕ, zero, suc, ◌+◌, ◌*◌, ◌/◌, ◌%◌, ◌^◌, ◌<◌}
use mathlib.Core.Path.{◌≡◌, refl}
use mathlib.Core.List.{List, [], ◌∷◌, ◌++◌}
use native.Mathlib.Nat.{pow-suc}
use native.Mathlib.Omega.{arith}
use udpproxy.Prelude.Lists.{length, length-append}

-- As ntohs, be64toh, htons and htobe64 convert it.
unfoldable pub of_be : ℕ → List ℕ → ℕ
of_be acc [] = acc
of_be acc (b ∷ bs) = of_be (acc * 256 + b) bs

unfoldable pub be_bytes : ℕ → ℕ → List ℕ
be_bytes zero n = []
be_bytes (suc k) n = be_bytes k (n / 256) ++ n % 256 ∷ []

of_be-append : (acc b : ℕ) (bs : List ℕ) → of_be acc (bs ++ b ∷ []) ≡ of_be acc bs * 256 + b
unfolding of_be
of_be-append acc b [] = refl
of_be-append acc b (c ∷ bs) = of_be-append (acc * 256 + c) b bs

pub of_be-be_bytes : (k n : ℕ) → n < 256 ^ k → of_be 0 (be_bytes k n) ≡ n
unfolding be_bytes of_be
of_be-be_bytes zero n h = omega arith
of_be-be_bytes (suc k) n h = omega (
  arith,
  of_be-append 0 (n % 256) (be_bytes k (n / 256)),
  of_be-be_bytes k (n / 256) (omega (arith, pow-suc 256 k)),
)

pub length-be_bytes : (k n : ℕ) → length (be_bytes k n) ≡ k
unfolding be_bytes
length-be_bytes zero n = refl
length-be_bytes (suc k) n =
    omega (arith, length-append (be_bytes k (n / 256)) (n % 256 ∷ []), length-be_bytes k (n / 256))
