-- ===== src/Ports/Sound.antt =====
-- The invariant of the parent's list of port pairs, and that a reload of the database keeps it.
use udpproxy.Prelude.{
  ℕ, ◌≡◌, refl, sym, ap, subst, ◌≢◌, inl, inr, false, not, ◌&&◌, Option, none, some, List, [], ◌∷◌,
  map, arith, ◌==◌, Bool-cases, All,
}
use udpproxy.Ports.{
  Port, Effect, Net, Config, no_sockets, open_sockets, close_sockets, is_idle, refresh_port,
  refresh_first, behind, or_new, new_port, upsert_port, upsert_all, unmark, drop_unseen,
  drop_all_unseen, reopen, reload_ports,
}
use udpproxy.Ports.Forks.{drop_unseen-map}

-- The parent listens for a port pair only if it has no child and is not removed.
abbrev pub IsQuiet : Port → Type 0
IsQuiet p = (is_idle p.pid && not p.removed) ≡ false → p.sockets ≡ no_sockets

abbrev pub port2s : List Port → List ℕ
port2s [] = []
port2s (p ∷ ps) = p.port2 ∷ port2s ps

abbrev Differs : ℕ → ℕ → Type 0
Differs n m = m ≢ n

abbrev pub AllDiffer : List ℕ → Type 0
AllDiffer [] = Unit
AllDiffer (n ∷ ns) = All (Differs n) ns × AllDiffer ns

-- No two port pairs have one port2, and the parent listens for none that a child serves or that was
-- removed.
pub record IsSound (ps : List Port) : Type 0 where
  pub differ : AllDiffer (port2s ps)
  pub quiet : All IsQuiet ps

refresh_port-IsQuiet :
    (net : Net) (c : Config) (p : Port)
    → IsQuiet p
    → IsQuiet (refresh_port net c p).0 × ((refresh_port net c p).0.port2 ≡ p.port2)
unfolding refresh_port open_sockets close_sockets
refresh_port-IsQuiet net c p q = ground arith

-- What the loop of upsert_port gives back.
abbrev Refreshed : ℕ → List Port → Option (List Port × List Effect) → Type 0
Refreshed port2 ps none = All (Differs port2) (port2s ps)
Refreshed port2 ps (some r) = All IsQuiet r.0 × (port2s r.0 ≡ port2s ps)

behind-Refreshed :
    (port2 : ℕ) (p : Port) (ps : List Port) (r : Option (List Port × List Effect))
    → IsQuiet p
    → p.port2 ≢ port2
    → Refreshed port2 ps r
    → Refreshed port2 (p ∷ ps) (behind p r)
behind-Refreshed port2 p ps none q ne h = (ne, h)
behind-Refreshed port2 p ps (some r) q ne h = ((q, h.0), ap (◌∷◌ p.port2) h.1)

refresh_first-Refreshed :
    (net : Net) (port2 : ℕ) (c : Config) (ps : List Port)
    → All IsQuiet ps
    → Refreshed port2 ps (refresh_first net port2 c ps)
unfolding refresh_first
refresh_first-Refreshed net port2 c [] h = tt
refresh_first-Refreshed net port2 c (p ∷ ps) h = elim (Bool-cases (p.port2 == port2)) [
  | inl e ↦
      let r = refresh_port-IsQuiet net c p h.0 in rw e ((r.0, h.1), ap (λ n. n ∷ port2s ps) r.1)
  | inr e ↦ rw e (
      behind-Refreshed port2 p ps _ h.0 (ground arith) (refresh_first-Refreshed net port2 c ps h.1))
]

or_new-IsSound :
    (net : Net) (port2 : ℕ) (c : Config) (ps : List Port) (r : Option (List Port × List Effect))
    → Refreshed port2 ps r
    → IsSound ps
    → IsSound (or_new net port2 c ps r).0
unfolding new_port open_sockets
or_new-IsSound net port2 c ps none h v = record {
  differ = (h, v.differ);
  quiet = (λ e. cc, v.quiet);
}
or_new-IsSound net port2 c ps (some r) h v = record {
  differ = subst AllDiffer (sym h.1) v.differ;
  quiet = h.0;
}

upsert_port-IsSound :
    (net : Net) (port2 : ℕ) (c : Config) (ps : List Port)
    → IsSound ps
    → IsSound (upsert_port net port2 c ps).0
unfolding upsert_port
upsert_port-IsSound net port2 c ps v =
    or_new-IsSound net port2 c ps _ (refresh_first-Refreshed net port2 c ps v.quiet) v

pub upsert_all-IsSound :
    (net : Net) (cs : List (ℕ × Config)) (ps : List Port)
    → IsSound ps
    → IsSound (upsert_all net cs ps).0
unfolding upsert_all
upsert_all-IsSound net [] ps v = v
upsert_all-IsSound net ((port2, c) ∷ cs) ps v =
    upsert_all-IsSound net cs (upsert_port net port2 c ps).0 (upsert_port-IsSound net port2 c ps v)

-- A change of single entries that keeps their port2 and their quiet keeps the list sound.
module _ (f : Port → Port) (same : (p : Port) → (f p).port2 ≡ p.port2)
    (quiet : (p : Port) → IsQuiet p → IsQuiet (f p)) where
  port2s-map : (ps : List Port) → port2s (map f ps) ≡ port2s ps
  port2s-map [] = refl
  port2s-map (p ∷ ps) = rw (same p, port2s-map ps)

  IsQuiet-map : (ps : List Port) → All IsQuiet ps → All IsQuiet (map f ps)
  IsQuiet-map [] h = tt
  IsQuiet-map (p ∷ ps) h = (quiet p h.0, IsQuiet-map ps h.1)

  map-IsSound : (ps : List Port) → IsSound ps → IsSound (map f ps)
  map-IsSound ps v = record { differ = rw (port2s-map ps) v.differ; quiet = IsQuiet-map ps v.quiet }

unmark-IsSound : (ps : List Port) → IsSound ps → IsSound (map unmark ps)
unfolding unmark
unmark-IsSound ps v = map-IsSound unmark (λ p. refl) (λ p q. q) ps v

reopen-IsSound : (net : Net) (ps : List Port) → IsSound ps → IsSound (map (reopen net) ps)
unfolding reopen open_sockets
reopen-IsSound net ps v = map-IsSound (reopen net) (λ p. ground arith) (λ p q. ground arith) ps v

drop_all_unseen-IsSound : (ps : List Port) → IsSound ps → IsSound (drop_all_unseen ps).0
unfolding drop_unseen close_sockets
drop_all_unseen-IsSound ps v =
    rw (drop_unseen-map ps)
      (map-IsSound (λ p. (drop_unseen p).0) (λ p. ground arith) (λ p q. ground arith) ps v)

pub reload_ports-IsSound :
    (net : Net) (cs : List (ℕ × Config)) (ps : List Port)
    → IsSound ps
    → IsSound (reload_ports net cs ps).0
unfolding reload_ports
reload_ports-IsSound net cs ps v =
    reopen-IsSound net _
      (drop_all_unseen-IsSound _ (upsert_all-IsSound net cs _ (unmark-IsSound ps v)))
