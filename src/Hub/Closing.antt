-- ===== src/Hub/Closing.antt =====
-- internal/hub/hub.go: resolveStaleIncidents leaves no incident open if every monitor is stale.
use whatsupp.Base.{
  ℕ, ◌+◌, ◌≡◌, refl, String, true, List, [], ◌∷◌, arith, ltb, map, keep_if, ◌⊎◌, inl, inr,
  Bool-cases, ◌==◌,
}
use whatsupp.Store.{
  Store, Incident, is_open, resolve_row, resolve_incident, statement, by_start, insert_by_start,
  get_all_open_incidents,
}
use whatsupp.Store.Incidents.{open_count, Below, Below-resolve}
use whatsupp.Hub.{Hub, is_stale, resolve_each, resolve_stale_incidents}
use whatsupp.Hub.Consistency.{NeverFails}

-- The id of every open row is listed.
abbrev Listed : ℕ → List Incident → Type 0
Listed id [] = ⊥
Listed id (r ∷ rows) = (r.id ≡ id) ⊎ Listed id rows

abbrev OpenAmong : List Incident → List Incident → Type 0
OpenAmong incs [] = Unit
OpenAmong incs (r ∷ rows) = (is_open r ≡ true → Listed r.id incs) × OpenAmong incs rows

OpenAmong-resolve :
    (inc : Incident) (incs rows : List Incident) (now : ℕ)
    → OpenAmong (inc ∷ incs) rows
    → OpenAmong incs (map (resolve_row inc.id now) rows)
unfolding resolve_row
OpenAmong-resolve inc incs [] now o = tt
OpenAmong-resolve inc incs (r ∷ rows) now (o, os) =
    let rest = OpenAmong-resolve inc incs rows now os in
    elim (Bool-cases (r.id == inc.id)) [
      | inl same ↦ (λ unresolved. absurd (ground (arith, same, unresolved)), rest)
      | inr other ↦
          let unchanged : resolve_row inc.id now r ≡ r = ground (arith, other) in
          let listed : is_open r ≡ true → Listed r.id incs = λ unresolved. elim (o unresolved) [
            | inl e ↦ absurd (ground (arith, other, e))
            | inr l ↦ l
          ] in
          (rw unchanged listed, rest)
    ]

pub open_count-closed :
    (m : String) (rows : List Incident) → OpenAmong [] rows → open_count m rows ≡ 0
open_count-closed m [] o = refl
open_count-closed m (r ∷ rows) (o, os) =
    let rest = open_count-closed m rows os in
    elim (Bool-cases (is_open r)) [
      | inl unresolved ↦ absurd (o unresolved)
      | inr shut ↦ rw shut rest
    ]

pub record Closed (n : ℕ) (s : Store) : Type 0 where
  pub fine : NeverFails s
  pub below : Below n s.tables.incidents
  pub shut : OpenAmong [] s.tables.incidents

resolve_each-Closed :
    (h : Hub) (now n : ℕ) (incs : List Incident) (s : Store)
    → NeverFails s
    → ((m : String) → is_stale h m ≡ true)
    → Below n s.tables.incidents
    → OpenAmong incs s.tables.incidents
    → Closed n (resolve_each h now incs s)
unfolding resolve_each
resolve_each-Closed h now n [] s fine stale b o = record { fine = fine; below = b; shut = o }
resolve_each-Closed h now n (inc ∷ incs) s fine stale b o =
    let s' = (resolve_incident inc.id now s).1 in
    let same_fails : s'.fails ≡ s.fails = unfold resolve_incident in ground (arith, fine s.calls) in
    let resolved : s'.tables.incidents ≡ map (resolve_row inc.id now) s.tables.incidents =
      unfold resolve_incident in ground (arith, fine s.calls) in
    rw (stale inc.monitor, resolve_each)
      (resolve_each-Closed h now n incs s' (rw same_fails fine) stale
        (rw resolved (Below-resolve n inc.id now s.tables.incidents b))
        (rw resolved (OpenAmong-resolve inc incs s.tables.incidents now o)))

Listed-past :
    (id : ℕ) (q x : Incident) (rows after : List Incident)
    → (Listed id (q ∷ rows) → Listed id after)
    → Listed id (q ∷ x ∷ rows)
    → Listed id (x ∷ after)
Listed-past id q x rows after f (inl e) = inr (f (inl e))
Listed-past id q x rows after f (inr (inl e)) = inl e
Listed-past id q x rows after f (inr (inr r)) = inr (f (inr r))

Listed-insert_by_start :
    (id : ℕ) (q : Incident) (rows : List Incident)
    → Listed id (q ∷ rows)
    → Listed id (insert_by_start q rows)
unfolding insert_by_start
Listed-insert_by_start id q [] l = l
Listed-insert_by_start id q (x ∷ rows) l = elim (Bool-cases (ltb q.started_at x.started_at)) [
  | inr first ↦ rw first l
  | inl later ↦
      rw later
        (Listed-past id q x rows (insert_by_start q rows) (Listed-insert_by_start id q rows) l)
]

Listed-by_start : (id : ℕ) (rows : List Incident) → Listed id rows → Listed id (by_start rows)
unfolding by_start
Listed-by_start id [] l = elim l [ ]
Listed-by_start id (r ∷ rows) (inl e) = Listed-insert_by_start id r (by_start rows) (inl e)
Listed-by_start id (r ∷ rows) (inr l) =
    Listed-insert_by_start id r (by_start rows) (inr (Listed-by_start id rows l))

open-Listed :
    (incs rows : List Incident)
    → ((id : ℕ) → Listed id (keep_if is_open rows) → Listed id incs)
    → OpenAmong incs rows
open-Listed incs [] f = tt
open-Listed incs (r ∷ rows) f = (
  λ unresolved. f r.id (rw unresolved (inl refl)),
  open-Listed incs rows λ id l. f id (elim (Bool-cases (is_open r)) [
    | inl unresolved ↦ rw unresolved (inr l)
    | inr shut ↦ rw shut l
  ]),
)

pub resolve_stale-Closed :
    (h : Hub) (now n : ℕ)
    → NeverFails h.store
    → ((m : String) → is_stale h m ≡ true)
    → Below n h.store.tables.incidents
    → Closed n (resolve_stale_incidents now h).store
      × ((resolve_stale_incidents now h).monitor_states ≡ h.monitor_states)
unfolding resolve_stale_incidents get_all_open_incidents statement
resolve_stale-Closed h now n fine stale b =
    let rows = h.store.tables.incidents in
    let incs = by_start (keep_if is_open rows) in
    let read : Store = record h.store { calls = h.store.calls + 1 } in
    let resolved : resolve_stale_incidents now h
        ≡ record h { store = resolve_each h now incs read } =
      ground (arith, fine h.store.calls) in
    rw resolved (
      resolve_each-Closed h now n incs read fine stale b
          (open-Listed incs rows λ id l. Listed-by_start id (keep_if is_open rows) l),
      refl,
    )
