-- ===== src/Store/Incidents.antt =====
-- internal/store/queries.go: the incident table, counted by monitor.
use whatsupp.Base.{
  ℕ, suc, ◌+◌, ◌≤◌, ◌<◌, ◌≡◌, refl, String, true, ◌&&◌, ◌⊎◌, inl, inr, List, [], ◌∷◌, none, some,
  arith, str_eq, eq_iff, if◌then◌else◌, map, Option-cases,
}
use whatsupp.Store.{Incident, is_open, fresh_id, resolve_row, open_of}

-- How many incidents of a monitor are open.
abbrev pub open_count : String → List Incident → ℕ
open_count m [] = 0
open_count m (r ∷ rows) =
    let rest = open_count m rows in if is_open r && str_eq r.monitor m then suc rest else rest

-- The ids fall along the list and stay below `n`.
abbrev pub Below : ℕ → List Incident → Type 0
Below n [] = Unit
Below n (r ∷ rows) = (r.id < n) × Below r.id rows

abbrev Held : Incident → List Incident → Type 0
Held r [] = ⊥
Held r (x ∷ rows) = (x ≡ r) ⊎ Held r rows

pub Below-fresh_id : (n : ℕ) (rows : List Incident) → Below n rows → Below (fresh_id rows) rows
unfolding fresh_id
Below-fresh_id n [] b = tt
Below-fresh_id n (r ∷ rows) b = (ground arith, b.1)

open_of-Held :
    (m : String) (rows : List Incident) (r : Incident)
    → open_of m rows ≡ some r
    → Held r rows × (is_open r ≡ true) × (r.monitor ≡ m)
unfolding open_of
open_of-Held m [] r e = cc
open_of-Held m (x ∷ rows) r e = elim (Option-cases (open_of m rows)) [
  | inl gone ↦ ground (arith, gone, eq_iff x.monitor m)
  | inr (q, found) ↦ ground (arith, found, open_of-Held m rows q found, eq_iff x.monitor m)
]

resolve_above :
    (id at n : ℕ) (rows : List Incident)
    → Below n rows
    → n ≤ id
    → map (resolve_row id at) rows ≡ rows
unfolding resolve_row
resolve_above id at n [] b h = refl
resolve_above id at n (x ∷ rows) b h = ground (arith, resolve_above id at x.id rows b.1)

Held-lt : (n : ℕ) (r : Incident) (rows : List Incident) → Below n rows → Held r rows → r.id < n
Held-lt n r [] b h = absurd h
Held-lt n r (x ∷ rows) b (inl e) = ground (arith, e)
Held-lt n r (x ∷ rows) b (inr h) = omega (arith, Held-lt x.id r rows b.1 h)

open_count-resolve :
    (n at : ℕ) (r : Incident) (rows : List Incident) (m : String)
    → Below n rows
    → Held r rows
    → is_open r ≡ true
    → open_count m (map (resolve_row r.id at) rows) + (if str_eq r.monitor m then 1 else 0)
      ≡ open_count m rows
unfolding resolve_row
open_count-resolve n at r [] m b h o = absurd h
open_count-resolve n at r (x ∷ rows) m b (inl e) o =
    ground (arith, e, resolve_above r.id at x.id rows b.1)
open_count-resolve n at r (x ∷ rows) m b (inr h) o =
    ground (arith, Held-lt x.id r rows b.1 h, open_count-resolve x.id at r rows m b.1 h o)

pub open_of-none :
    (m : String) (rows : List Incident) → open_of m rows ≡ none → open_count m rows ≡ 0
unfolding open_of
open_of-none m [] e = refl
open_of-none m (x ∷ rows) e = ground (arith, open_of-none m rows)

-- With distinct ids, resolving the incident that `GetOpenIncident` finds for a monitor closes one
-- incident of that monitor and none of another.
pub open_count-resolve_found :
    (n at : ℕ) (m j : String) (r : Incident) (rows : List Incident)
    → Below n rows
    → open_of m rows ≡ some r
    → open_count j (map (resolve_row r.id at) rows) + (if str_eq m j then 1 else 0)
      ≡ open_count j rows
open_count-resolve_found n at m j r rows b e =
    let (held, opened, named) = open_of-Held m rows r e in
    rw (← named) (open_count-resolve n at r rows j b held opened)

pub Below-resolve :
    (n id at : ℕ) (rows : List Incident) → Below n rows → Below n (map (resolve_row id at) rows)
unfolding resolve_row
Below-resolve n id at [] b = tt
Below-resolve n id at (x ∷ rows) b = ground (arith, Below-resolve x.id id at rows b.1)

pub Below-create :
    (r : Incident) (rows : List Incident)
    → r.id ≡ fresh_id rows
    → Below (fresh_id rows) rows
    → Below (fresh_id (r ∷ rows)) (r ∷ rows)
Below-create r rows e b = Below-fresh_id (suc r.id) (r ∷ rows) (omega arith, rw e b)
