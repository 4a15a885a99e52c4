-- ===== src/Ports/Reload.antt =====
-- reload_ports makes the list of live port pairs what keys.tdb says.
use udpproxy.Prelude.{
  ℕ, ◌≡◌, refl, ap, ◌∙◌, inl, inr, false, Option, none, some, List, [], ◌∷◌, map, arith, ◌==◌,
  if◌then◌else◌, ==_iff, Bool-cases,
}
use udpproxy.Ports.{
  Port, Effect, Net, Config, open_sockets, close_sockets, refresh_port, refresh_first, behind,
  or_new, new_port, upsert_port, upsert_all, unmark, drop_unseen, drop_all_unseen, reopen,
  reload_ports,
}

-- The first entry with this port2, looked at through `f`.
abbrev pub look_up {ℓ} : {A : Type ℓ} → (Port → Option A) → ℕ → List Port → Option A
look_up f n [] = none
look_up f n (p ∷ ps) = if p.port2 == n then f p else look_up f n ps

abbrev config_of : Port → Config
config_of p = record { port1 = p.port1; flags = p.flags; fc_sysid = p.fc_sysid }

-- What the parent serves for an entry.
abbrev pub live : Port → Option Config
live p = if p.removed then none else some (config_of p)

-- The configuration of a port pair that the parent serves.
abbrev pub live_of : ℕ → List Port → Option Config
live_of = look_up live

-- The last record for a port pair, or `before`.
pub latest : ℕ → List (ℕ × Config) → Option Config → Option Config
latest n [] before = before
latest n ((port2, c) ∷ cs) before = latest n cs (if port2 == n then some c else before)

-- An entry that the traversal has seen.
abbrev marked : Port → Option Config
marked p = if p.seen then live p else none

look_up-map {ℓ} :
    {A : Type ℓ} (f : Port → Option A) (g : Port → Port) (h : Port → Option A) (n : ℕ)
    (ps : List Port)
    → ((p : Port) → (g p).port2 ≡ p.port2)
    → ((p : Port) → f (g p) ≡ h p)
    → look_up f n (map g ps) ≡ look_up h n ps
look_up-map f g h n [] same eq = refl
look_up-map f g h n (p ∷ ps) same eq = simp (eq p, same p, look_up-map f g h n ps same eq)

refresh_port-marked :
    (net : Net) (c : Config) (p : Port)
    → (marked (refresh_port net c p).0 ≡ some c) × ((refresh_port net c p).0.port2 ≡ p.port2)
unfolding refresh_port open_sockets close_sockets
refresh_port-marked net c p = ground arith

-- What the loop of upsert_port does to the marks.
abbrev Upserted : ℕ → Config → List Port → ℕ → Option (List Port × List Effect) → Type 0
Upserted port2 c ps n none = Unit
Upserted port2 c ps n (some r) =
    look_up marked n r.0 ≡ (if port2 == n then some c else look_up marked n ps)

behind-Upserted :
    (port2 : ℕ) (c : Config) (p : Port) (ps : List Port) (n : ℕ)
    (r : Option (List Port × List Effect))
    → (p.port2 == port2) ≡ false
    → Upserted port2 c ps n r
    → Upserted port2 c (p ∷ ps) n (behind p r)
behind-Upserted port2 c p ps n none ne h = tt
behind-Upserted port2 c p ps n (some r) ne h = elim (Bool-cases (p.port2 == n)) [
  | inl e ↦ rw e (ground arith)
  | inr e ↦ rw e h
]

refresh_first-Upserted :
    (net : Net) (port2 : ℕ) (c : Config) (ps : List Port) (n : ℕ)
    → Upserted port2 c ps n (refresh_first net port2 c ps)
unfolding refresh_first
refresh_first-Upserted net port2 c [] n = tt
refresh_first-Upserted net port2 c (p ∷ ps) n = elim (Bool-cases (p.port2 == port2)) [
  | inl e ↦
      let r = refresh_port-marked net c p in
      rw (e, r.1, r.0, (==_iff p.port2 port2).0 e) (ground arith)
  | inr e ↦ rw e (behind-Upserted port2 c p ps n _ e (refresh_first-Upserted net port2 c ps n))
]

or_new-Upserted :
    (net : Net) (port2 : ℕ) (c : Config) (ps : List Port) (n : ℕ)
    (r : Option (List Port × List Effect))
    → Upserted port2 c ps n r
    → look_up marked n (or_new net port2 c ps r).0
      ≡ (if port2 == n then some c else look_up marked n ps)
unfolding new_port open_sockets
or_new-Upserted net port2 c ps n none h = refl
or_new-Upserted net port2 c ps n (some r) h = h

upsert_all-latest :
    (net : Net) (cs : List (ℕ × Config)) (ps : List Port) (n : ℕ)
    → look_up marked n (upsert_all net cs ps).0 ≡ latest n cs (look_up marked n ps)
unfolding upsert_all latest upsert_port
upsert_all-latest net [] ps n = refl
upsert_all-latest net ((port2, c) ∷ cs) ps n =
    upsert_all-latest net cs (upsert_port net port2 c ps).0 n
    ∙ ap (latest n cs)
        (or_new-Upserted net port2 c ps n _ (refresh_first-Upserted net port2 c ps n))

drop_unseen-map : (ps : List Port) → (drop_all_unseen ps).0 ≡ map (λ p. (drop_unseen p).0) ps
unfolding drop_all_unseen
drop_unseen-map [] = refl
drop_unseen-map (p ∷ ps) = rw (drop_unseen-map ps)

unmarked : (n : ℕ) (ps : List Port) → look_up marked n (map unmark ps) ≡ none
unfolding unmark
unmarked n [] = refl
unmarked n (p ∷ ps) = ground (arith, unmarked n ps)

-- After a reload the parent serves, for every port2, exactly what the last record of the database for
-- it says (port1, flags and sysid), and nothing where there is no record, whatever the list was.
pub reload_ports_refines :
    (net : Net) (cs : List (ℕ × Config)) (ps : List Port) (n : ℕ)
    → live_of n (reload_ports net cs ps).0 ≡ latest n cs none
unfolding reload_ports reopen drop_unseen open_sockets close_sockets
reload_ports_refines net cs ps n =
    look_up-map live (reopen net) live n _ (λ p. ground arith) (λ p. ground arith)
    ∙ (rw (drop_unseen-map (upsert_all net cs (map unmark ps)).0) (
          look_up-map live (λ p. (drop_unseen p).0) marked n _ (λ p. ground arith)
            (λ p. ground arith))
        ∙ (upsert_all-latest net cs (map unmark ps) n ∙ ap (latest n cs) (unmarked n ps)))
