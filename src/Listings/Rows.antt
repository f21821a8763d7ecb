-- ===== src/Listings/Rows.antt =====
-- internal/store/queries.go: filtering, sorting and copying of incidents, by the rows that they keep.
use whatsupp.Base.{
  ℕ, ◌≤◌, ◌≡◌, refl, ◌⊎◌, List, [], ◌∷◌, arith, ltb, map, Listed, Bool-cases, inl, inr, All,
}
use whatsupp.Store.{Incident, insert_by_start, by_start}
use whatsupp.Listings.{ApiIncident, as_api}

-- By falling time of the start.
abbrev pub Falling : List ApiIncident → Type 0
Falling [] = Unit
Falling (r ∷ rows) = All (λ q. q.started_at ≤ r.started_at) rows × Falling rows

abbrev FallingRows : List Incident → Type 0
FallingRows [] = Unit
FallingRows (r ∷ rows) = All (λ (q : Incident). q.started_at ≤ r.started_at) rows × FallingRows rows

module _ (x : Incident) where
  insert_by_start-first : (r : Incident) (rows : List Incident) → Listed r (insert_by_start r rows)
  unfolding insert_by_start
  insert_by_start-first r [] = inl refl
  insert_by_start-first r (q ∷ rows) = elim (Bool-cases (ltb r.started_at q.started_at)) [
    | inl before ↦ rw before (inr (insert_by_start-first r rows))
    | inr after ↦ rw after (inl refl)
  ]

  insert_by_start-Listed :
      (r : Incident) (rows : List Incident) → Listed x rows → Listed x (insert_by_start r rows)
  unfolding insert_by_start
  insert_by_start-Listed r [] h = absurd h
  insert_by_start-Listed r (q ∷ rows) h = elim (Bool-cases (ltb r.started_at q.started_at)) [
    | inr after ↦ rw after (inr h)
    | inl before ↦
        rw before
          (elim h [ inl same ↦ inl same | inr later ↦ inr (insert_by_start-Listed r rows later) ])
  ]

  Listed-insert_by_start :
      (r : Incident) (rows : List Incident)
      → Listed x (insert_by_start r rows)
      → (x ≡ r) ⊎ Listed x rows
  unfolding insert_by_start
  Listed-insert_by_start r [] h = h
  Listed-insert_by_start r (q ∷ rows) h = elim (Bool-cases (ltb r.started_at q.started_at)) [
    | inr after ↦ rw after at h
    | inl before ↦ elim (rw before at h) [
      | inl same ↦ inr (inl same)
      | inr later ↦ elim (Listed-insert_by_start r rows later) [
        | inl first ↦ inl first
        | inr found ↦ inr (inr found)
      ]
    ]
  ]

  pub by_start-Listed : (rows : List Incident) → Listed x rows → Listed x (by_start rows)
  unfolding by_start
  by_start-Listed [] h = h
  by_start-Listed (r ∷ rows) (inl same) = rw same (insert_by_start-first r (by_start rows))
  by_start-Listed (r ∷ rows) (inr h) =
      insert_by_start-Listed r (by_start rows) (by_start-Listed rows h)

  pub Listed-by_start : (rows : List Incident) → Listed x (by_start rows) → Listed x rows
  unfolding by_start
  Listed-by_start [] h = h
  Listed-by_start (r ∷ rows) h = elim (Listed-insert_by_start r (by_start rows) h) [
    | inl first ↦ inl first
    | inr later ↦ inr (Listed-by_start rows later)
  ]

insert_by_start-All :
    (n : ℕ) (r : Incident) (rows : List Incident)
    → r.started_at ≤ n
    → All (λ (q : Incident). q.started_at ≤ n) rows
    → All (λ (q : Incident). q.started_at ≤ n) (insert_by_start r rows)
unfolding insert_by_start
insert_by_start-All n r [] le h = (le, tt)
insert_by_start-All n r (q ∷ rows) le (first, rest) =
    elim (Bool-cases (ltb r.started_at q.started_at)) [
      | inl before ↦ rw before (first, insert_by_start-All n r rows le rest)
      | inr after ↦ rw after (le, (first, rest))
    ]

All-later :
    (m n : ℕ) (rows : List Incident)
    → m ≤ n
    → All (λ (q : Incident). q.started_at ≤ m) rows
    → All (λ (q : Incident). q.started_at ≤ n) rows
All-later m n [] le h = tt
All-later m n (q ∷ rows) le (first, rest) = (omega arith, All-later m n rows le rest)

insert_by_start-Falling :
    (r : Incident) (rows : List Incident) → FallingRows rows → FallingRows (insert_by_start r rows)
unfolding insert_by_start
insert_by_start-Falling r [] h = (tt, tt)
insert_by_start-Falling r (q ∷ rows) (first, rest) =
    elim (Bool-cases (ltb r.started_at q.started_at)) [
      | inl before ↦ rw before (
        insert_by_start-All q.started_at r rows (ground (arith, before)) first,
        insert_by_start-Falling r rows rest,
      )
      | inr after ↦
          let le : q.started_at ≤ r.started_at = ground (arith, after) in
          rw after ((le, All-later q.started_at r.started_at rows le first), (first, rest))
    ]

by_start-Falling : (rows : List Incident) → FallingRows (by_start rows)
unfolding by_start
by_start-Falling [] = tt
by_start-Falling (r ∷ rows) = insert_by_start-Falling r (by_start rows) (by_start-Falling rows)

map-All :
    (n : ℕ) (rows : List Incident)
    → All (λ (q : Incident). q.started_at ≤ n) rows
    → All (λ (q : ApiIncident). q.started_at ≤ n) (map as_api rows)
unfolding as_api
map-All n [] h = tt
map-All n (r ∷ rows) (first, rest) = (first, map-All n rows rest)

map-Falling : (rows : List Incident) → FallingRows rows → Falling (map as_api rows)
unfolding as_api
map-Falling [] h = tt
map-Falling (r ∷ rows) (first, rest) = (map-All r.started_at rows first, map-Falling rows rest)

pub by_start-api : (rows : List Incident) → Falling (map as_api (by_start rows))
by_start-api rows = map-Falling (by_start rows) (by_start-Falling rows)
