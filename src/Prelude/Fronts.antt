-- ===== src/Prelude/Fronts.antt =====
-- The front of a list: what take, drop and get_or make of it.
use udpproxy.Prelude.Lists.{length, get_or, take, drop, take-append, drop-append}
use Prim.Native.Nat.{ℕ, zero, suc, ◌+◌, ◌≤◌, ◌<◌}
use mathlib.Core.Path.{◌≡◌, refl, ap, subst}
use mathlib.Core.List.{List, [], ◌∷◌, ◌++◌}
use native.Mathlib.Omega.{arith}

pub get_or-append {ℓ} :
    {A : Type ℓ} (xs ys : List A) (i : ℕ) (d : A)
    → i < length xs
    → get_or (xs ++ ys) i d ≡ get_or xs i d
get_or-append [] ys i d h = absurd (omega (arith, h))
get_or-append (x ∷ xs) ys zero d h = refl
get_or-append (x ∷ xs) ys (suc i) d h = get_or-append xs ys i d (omega (arith, h))

pub take-append_le {ℓ} :
    {A : Type ℓ} (n : ℕ) (xs ys : List A) → n ≤ length xs → take n (xs ++ ys) ≡ take n xs
take-append_le zero xs ys h = refl
take-append_le (suc n) [] ys h = absurd (omega (arith, h))
take-append_le (suc n) (x ∷ xs) ys h = ap (λ t. x ∷ t) (take-append_le n xs ys (omega (arith, h)))

pub take-drop-append {ℓ} :
    {A : Type ℓ} (m n : ℕ) (xs ys : List A)
    → m + n ≤ length xs
    → take n (drop m (xs ++ ys)) ≡ take n (drop m xs)
take-drop-append zero n xs ys h = take-append_le n xs ys (omega (arith, h))
take-drop-append (suc m) n [] ys h = absurd (omega (arith, h))
take-drop-append (suc m) n (x ∷ xs) ys h = take-drop-append m n xs ys (omega (arith, h))

pub take_all {ℓ} : {A : Type ℓ} (n : ℕ) (xs : List A) → length xs ≤ n → take n xs ≡ xs
take_all zero [] h = refl
take_all (suc n) [] h = refl
take_all zero (x ∷ xs) h = absurd (omega (arith, h))
take_all (suc n) (x ∷ xs) h = ap (λ t. x ∷ t) (take_all n xs (omega (arith, h)))

pub is_nil {ℓ} : {A : Type ℓ} (xs : List A) → length xs ≤ 0 → xs ≡ []
is_nil [] h = refl
is_nil (x ∷ xs) h = absurd (omega (arith, h))

pub take-drop_eq {ℓ} : {A : Type ℓ} (n : ℕ) (xs : List A) → take n xs ++ drop n xs ≡ xs
take-drop_eq zero xs = refl
take-drop_eq (suc n) [] = refl
take-drop_eq (suc n) (x ∷ xs) = ap (λ t. x ∷ t) (take-drop_eq n xs)

-- The front of a text that is at least as long as another front of it.
pub split_front {ℓ} :
    {A : Type ℓ} (ws xs ys ts : List A)
    → xs ++ ys ≡ ws ++ ts
    → length ws ≤ length xs
    → (xs ≡ ws ++ drop (length ws) xs) × (drop (length ws) xs ++ ys ≡ ts)
split_front [] xs ys ts e h = (refl, e)
split_front (w ∷ ws) [] ys ts e h = absurd (omega (arith, h))
split_front (w ∷ ws) (x ∷ xs) ys ts e h =
    let first = ap (λ l. get_or l 0 x) e in
    let r = split_front ws xs ys ts (ap (drop 1) e) (omega (arith, h)) in
    ((λ i. first i ∷ r.0 i), r.1)

pub append_nil_left {ℓ} : {A : Type ℓ} (xs ys : List A) → xs ++ ys ≡ [] → xs ≡ []
append_nil_left [] ys e = refl
append_nil_left (x ∷ xs) ys e = absurd (ground (arith, ap length e))

pub take_front {ℓ} : {A : Type ℓ} (n : ℕ) (xs ys : List A) → length xs ≡ n → take n (xs ++ ys) ≡ xs
take_front n xs ys h = subst (λ j. take j (xs ++ ys) ≡ xs) h (take-append xs ys)

pub drop_front {ℓ} : {A : Type ℓ} (n : ℕ) (xs ys : List A) → length xs ≡ n → drop n (xs ++ ys) ≡ ys
drop_front n xs ys h = subst (λ j. drop j (xs ++ ys) ≡ ys) h (drop-append xs ys)
