-- ===== src/Cleanup/Quota.antt =====
-- What the quota pass leaves, and what it takes.
use udpproxy.Prelude.{
  ℕ, ◌+◌, ◌-◌, ◌≤◌, ◌≡◌, refl, ap, ◌∙◌, ◌⊎◌, inl, inr, Bool, false, Option, some, List, [], ◌∷◌,
  arith, leb, Bool-cases, All, All-imp,
}
use mathlib.Core.List.{Permᴰ, Memᴰ}
use udpproxy.Session.Names.{Stat, FileEntry, DateDir, Tree}
use udpproxy.Cleanup.{
  Item, Sort, is_older, Evicted, evict, sum_sizes, max_bytes, items_of, enforce_port2_quota,
  cleanup_for_port2, retention_pass,
}
use udpproxy.Cleanup.Seen.{IsLeft, item_for, items_of-mem, evict-mem, perm-mem}

sum_sizes-perm : (xs ys : List Item) → Permᴰ xs ys → sum_sizes xs ≡ sum_sizes ys
unfolding sum_sizes
sum_sizes-perm xs ys Permᴰ.nil = refl
sum_sizes-perm (a ∷ xs) (b ∷ ys) (Permᴰ.cons e p) =
    omega (arith, sum_sizes-perm xs ys p, ap (λ (i : Item). i.size) e)
sum_sizes-perm (a ∷ b ∷ xs) (c ∷ d ∷ ys) (Permᴰ.swap e f) =
    omega (arith, ap (λ (i : Item). i.size) e, ap (λ (i : Item). i.size) f)
sum_sizes-perm xs zs (Permᴰ.trans p q) = sum_sizes-perm xs _ p ∙ sum_sizes-perm _ zs q

abbrev pub IsStuck : Item → Type 0
IsStuck it = it.unlinks ≡ false

-- Oldest first.
abbrev pub IsSorted : List Item → Type 0
IsSorted [] = Unit
IsSorted (it ∷ its) = All (λ (k : Item). it.mtime ≤ k.mtime) its × IsSorted its

-- The quota is kept unless every file that is left cannot be removed, the total is that of the files
-- left, and no file that could have been removed is older than one that was.
pub record IsWithin (extra : ℕ) (r : Evicted) : Type 0 where
  pub total_eq : r.total ≡ extra + sum_sizes r.kept
  pub fits : (r.total ≤ max_bytes) ⊎ All IsStuck r.kept
  pub oldest :
      All (λ (r' : Item). All (λ (k : Item). IsStuck k ⊎ (r'.mtime ≤ k.mtime)) r.kept) r.removed

evict-kept {κ} :
    (P : Item → Type κ) (total : ℕ) (its : List Item) → All P its → All P (evict total its).kept
unfolding evict
evict-kept P total [] h = tt
evict-kept P total (it ∷ its) h = elim (Bool-cases (leb total max_bytes)) [
  | inl f ↦ rw f h
  | inr f ↦ elim (Bool-cases it.unlinks) [
    | inl u ↦ simp (f, u) (evict-kept P (total - it.size) its h.1)
    | inr u ↦ simp (f, u) (h.0, evict-kept P total its h.1)
  ]
]

evict-IsWithin :
    (extra total : ℕ) (its : List Item)
    → total ≡ extra + sum_sizes its
    → IsSorted its
    → IsWithin extra (evict total its)
unfolding evict sum_sizes
evict-IsWithin extra total [] e sorted = record { total_eq = e; fits = inr tt; oldest = tt }
evict-IsWithin extra total (it ∷ its) e sorted = elim (Bool-cases (leb total max_bytes)) [
  | inl f ↦ rw f (record { total_eq = e; fits = inl (ground (arith, f)); oldest = tt })
  | inr f ↦ elim (Bool-cases it.unlinks) [
    | inl u ↦
        let rest = evict-IsWithin extra (total - it.size) its (omega (arith, e)) sorted.1 in
        let after = evict-kept (λ (k : Item). it.mtime ≤ k.mtime) (total - it.size) its sorted.0 in
        simp (f, u)
          (record {
            total_eq = rest.total_eq;
            fits = rest.fits;
            oldest = (All-imp _ _ _ (λ k h. inr h) after, rest.oldest);
          })
    | inr u ↦
        let rest = evict-IsWithin (extra + it.size) total its (omega (arith, e)) sorted.1 in
        simp (f, u)
          (record {
            total_eq = omega (arith, rest.total_eq);
            fits = elim rest.fits [ inl small ↦ inl small | inr stuck ↦ inr (u, stuck) ];
            oldest = All-imp _ _ _ (λ r h. (inl u, h)) rest.oldest;
          })
  ]
]

-- As std::sort leaves a list: nothing is less than what stands before it.
abbrev pub IsOrdered : (Item → Item → Bool) → List Item → Type 0
IsOrdered less [] = Unit
IsOrdered less (it ∷ its) = All (λ (k : Item). less k it ≡ false) its × IsOrdered less its

IsOrdered-IsSorted : (its : List Item) → IsOrdered is_older its → IsSorted its
unfolding is_older
IsOrdered-IsSorted [] h = tt
IsOrdered-IsSorted (it ∷ its) h =
    (All-imp _ _ its (λ (k : Item) e. ground (arith, e)) h.0, IsOrdered-IsSorted its h.1)

enforce-IsWithin :
    (sort : Sort) (tree : Tree)
    → Permᴰ (sort is_older (items_of tree)) (items_of tree)
    → IsSorted (sort is_older (items_of tree))
    → IsWithin 0 (enforce_port2_quota sort tree)
unfolding enforce_port2_quota
enforce-IsWithin sort tree perm sorted =
    let items = items_of tree in
    elim (Bool-cases (leb (sum_sizes items) max_bytes)) [
      | inl f ↦
          rw f (record { total_eq = omega arith; fits = inl (ground (arith, f)); oldest = tt })
      | inr f ↦ rw f (
          evict-IsWithin 0 (sum_sizes items) (sort is_older items)
            (omega (arith, sum_sizes-perm _ _ perm)) sorted)
    ]

enforce-mem :
    (it : Item) (sort : Sort) (tree : Tree)
    → Permᴰ (sort is_older (items_of tree)) (items_of tree)
    → Memᴰ it (items_of tree)
    → Memᴰ it (enforce_port2_quota sort tree).kept ⊎ Memᴰ it (enforce_port2_quota sort tree).removed
unfolding enforce_port2_quota
enforce-mem it sort tree perm m =
    let items = items_of tree in
    elim (Bool-cases (leb (sum_sizes items) max_bytes)) [
      | inl f ↦ rw f (inl m)
      | inr f ↦
          rw f (evict-mem it (sum_sizes items) (sort is_older items) (perm-mem it _ items perm m))
    ]

-- Where the sort gives a list of the same files in which none is less than one before it: after both
-- passes of the cleanup the files that the quota pass keeps are at most 1 GiB, or none of them can be
-- removed; the total is theirs; the quota removes no file that is newer than one it could have removed
-- and kept; and each file that is named as a session file in a date directory of the port pair, and
-- that is not older than the retention time or cannot be removed, is one of those it keeps or removes.
pub cleanup_for_port2-IsWithin :
    (sort : Sort) (retention : Option ℕ) (now : ℕ) (dirs : List DateDir) (d : DateDir)
    (e : FileEntry) (st : Stat)
    → let items = items_of (retention_pass retention now (some dirs)) in
      Permᴰ (sort is_older items) items
      → IsOrdered is_older (sort is_older items)
      → IsLeft retention now dirs d e st
      → let r = cleanup_for_port2 sort retention now (some dirs) in
        IsWithin 0 r × (Memᴰ (item_for d e st) r.kept ⊎ Memᴰ (item_for d e st) r.removed)
unfolding cleanup_for_port2
cleanup_for_port2-IsWithin sort retention now dirs d e st perm ordered there =
    let left = retention_pass retention now (some dirs) in
    (
      enforce-IsWithin sort left perm (IsOrdered-IsSorted _ ordered),
      enforce-mem (item_for d e st) sort left perm (items_of-mem retention now dirs d e st there),
    )
