-- ===== src/Store/Scans.antt =====
-- internal/store/queries.go: the scans that a query gives are rows of the table.
use whatsupp.Base.{◌≡◌, ◌⊎◌, List, [], ◌∷◌, ltb, Bool-cases, inl, inr, Listed}
use whatsupp.Store.{SecurityScan, insert_by_time, by_time}

module _ (x : SecurityScan) where
  Listed-insert_by_time :
      (r : SecurityScan) (rows : List SecurityScan)
      → Listed x (insert_by_time r rows)
      → (x ≡ r) ⊎ Listed x rows
  unfolding insert_by_time
  Listed-insert_by_time r [] h = h
  Listed-insert_by_time r (q ∷ rows) h = elim (Bool-cases (ltb r.timestamp q.timestamp)) [
    | inr after ↦ rw after at h
    | inl before ↦ elim (rw before at h) [
      | inl same ↦ inr (inl same)
      | inr later ↦ elim (Listed-insert_by_time r rows later) [
        | inl first ↦ inl first
        | inr found ↦ inr (inr found)
      ]
    ]
  ]

  pub Listed-by_time : (rows : List SecurityScan) → Listed x (by_time rows) → Listed x rows
  unfolding by_time
  Listed-by_time [] h = h
  Listed-by_time (r ∷ rows) h = elim (Listed-insert_by_time r (by_time rows) h) [
    | inl first ↦ inl first
    | inr later ↦ inr (Listed-by_time rows later)
  ]
