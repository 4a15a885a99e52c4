-- ===== src/Ports/Kills.antt =====
-- What a reload does to a port pair whose fork() failed.
use mathlib.Core.List.{Memᴰ}
use udpproxy.Prelude.{
  ℕ, ◌≡◌, refl, ◌∙◌, ◌≢◌, inl, inr, false, Option, none, some, List, [], ◌∷◌, ◌++◌, map, arith,
  ◌==◌, if◌then◌else◌, Bool-cases, All,
}
use udpproxy.Ports.{
  fork_failed, Port, Effect, kill_term, Net, Config, open_sockets, refresh_first, behind, or_new,
  new_port, upsert_port, upsert_all, unmark, drop_unseen, drop_all_unseen, reload_ports,
}
use udpproxy.Ports.Forks.{refresh_port-pid}

-- The first entry with this port2.
abbrev pub find_port : ℕ → List Port → Option Port
find_port n [] = none
find_port n (p ∷ ps) = if p.port2 == n then some p else find_port n ps

abbrev SameEntry : ℕ → ℕ → List Port → Option (List Port × List Effect) → Type 0
SameEntry port2 n ps none = Unit
SameEntry port2 n ps (some r) = find_port n r.0 ≡ find_port n ps

behind-SameEntry :
    (port2 n : ℕ) (p : Port) (ps : List Port) (r : Option (List Port × List Effect))
    → SameEntry port2 n ps r
    → SameEntry port2 n (p ∷ ps) (behind p r)
behind-SameEntry port2 n p ps none h = tt
behind-SameEntry port2 n p ps (some r) h = rw h

refresh_first-SameEntry :
    (net : Net) (port2 n : ℕ) (c : Config) (ps : List Port)
    → port2 ≢ n
    → SameEntry port2 n ps (refresh_first net port2 c ps)
unfolding refresh_first
refresh_first-SameEntry net port2 n c [] ne = tt
refresh_first-SameEntry net port2 n c (p ∷ ps) ne = elim (Bool-cases (p.port2 == port2)) [
  | inl e ↦ let r = refresh_port-pid net c p in rw e (ground (arith, r.0))
  | inr e ↦ rw e (behind-SameEntry port2 n p ps _ (refresh_first-SameEntry net port2 n c ps ne))
]

or_new-SameEntry :
    (net : Net) (port2 n : ℕ) (c : Config) (ps : List Port) (r : Option (List Port × List Effect))
    → port2 ≢ n
    → SameEntry port2 n ps r
    → find_port n (or_new net port2 c ps r).0 ≡ find_port n ps
unfolding new_port open_sockets
or_new-SameEntry net port2 n c ps none ne h = ground arith
or_new-SameEntry net port2 n c ps (some r) ne h = h

upsert_all-SameEntry :
    (net : Net) (n : ℕ) (cs : List (ℕ × Config)) (ps : List Port)
    → All (λ c. c.0 ≢ n) cs
    → find_port n (upsert_all net cs ps).0 ≡ find_port n ps
unfolding upsert_all upsert_port
upsert_all-SameEntry net n [] ps h = refl
upsert_all-SameEntry net n ((port2, c) ∷ cs) ps h =
    upsert_all-SameEntry net n cs (upsert_port net port2 c ps).0 h.1
    ∙ or_new-SameEntry net port2 n c ps _ h.0 (refresh_first-SameEntry net port2 n c ps h.0)

find_port-unmark :
    (n : ℕ) (ps : List Port) (p : Port)
    → find_port n ps ≡ some p
    → find_port n (map unmark ps) ≡ some (record p { seen = false })
unfolding unmark
find_port-unmark n [] p e = cc
find_port-unmark n (q ∷ ps) p e = ground (arith, find_port-unmark n ps p)

Memᴰ-right {ℓ} : {A : Type ℓ} {a : A} (xs ys : List A) → Memᴰ a ys → Memᴰ a (xs ++ ys)
Memᴰ-right [] ys m = m
Memᴰ-right (x ∷ xs) ys m = Memᴰ.tail (Memᴰ-right xs ys m)

Memᴰ-left {ℓ} : {A : Type ℓ} {a : A} (xs ys : List A) → Memᴰ a xs → Memᴰ a (xs ++ ys)
Memᴰ-left [] ys m = elim m [ ]
Memᴰ-left (x ∷ xs) ys (Memᴰ.head e) = Memᴰ.head e
Memᴰ-left (x ∷ xs) ys (Memᴰ.tail m) = Memᴰ.tail (Memᴰ-left xs ys m)

drop_unseen-kills :
    (p : Port)
    → p.seen ≡ false
    → p.removed ≡ false
    → p.pid ≡ fork_failed
    → Memᴰ (kill_term fork_failed) (drop_unseen p).1
unfolding drop_unseen
drop_unseen-kills p s r e = rw (s, r, e) (Memᴰ.head refl)

drop_all_unseen-kills :
    (n : ℕ) (ps : List Port) (p : Port)
    → find_port n ps ≡ some p
    → p.seen ≡ false
    → p.removed ≡ false
    → p.pid ≡ fork_failed
    → Memᴰ (kill_term fork_failed) (drop_all_unseen ps).1
unfolding drop_all_unseen
drop_all_unseen-kills n [] p f s r e = cc
drop_all_unseen-kills n (q ∷ ps) p f s r e = elim (Bool-cases (q.port2 == n)) [
  | inl same ↦
      Memᴰ-left (drop_unseen q).1 _
        (drop_unseen-kills q (ground arith) (ground arith) (ground arith))
  | inr other ↦ Memᴰ-right (drop_unseen q).1 _ (drop_all_unseen-kills n ps p (ground arith) s r e)
]

-- When a port pair whose fork() failed is taken out of keys.tdb, the next reload sends SIGTERM to
-- the process -1, which is every process that the proxy may signal.
pub reload_ports_kills_all :
    (net : Net) (n : ℕ) (cs : List (ℕ × Config)) (ps : List Port) (p : Port)
    → find_port n ps ≡ some p
    → p.removed ≡ false
    → p.pid ≡ fork_failed
    → All (λ c. c.0 ≢ n) cs
    → Memᴰ (kill_term fork_failed) (reload_ports net cs ps).1
unfolding reload_ports
reload_ports_kills_all net n cs ps p f r e gone =
    Memᴰ-right (upsert_all net cs (map unmark ps)).1 _ (
      drop_all_unseen-kills n _ (record p { seen = false })
        (upsert_all-SameEntry net n cs (map unmark ps) gone ∙ find_port-unmark n ps p f) refl r e)
