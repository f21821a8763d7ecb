-- ===== src/AgentMetrics/Rows.antt =====
-- internal/store/agent_metrics.go: rows of aggregated metrics, by what holds of all of them.
use whatsupp.Base.{◌≡◌, refl, Bool, true, false, List, [], ◌∷◌, keep_if, Bool-cases, inl, inr, All}
use whatsupp.AgentMetrics.{
  AgentMetricSummary, Held, same_key, add_to_groups, group_rows, upsert, upsert_all,
}

module _ {V : Type 0} where
  -- No row has the key of one before it.
  abbrev pub Unique : List (AgentMetricSummary V) → Type 0
  Unique [] = Unit
  Unique (s ∷ rows) = All (λ q. same_key q s ≡ false) rows × Unique rows

  module _ {ℓ} (P : AgentMetricSummary V → Type ℓ) where
    pub upsert-All :
        (s : AgentMetricSummary V) (table : List (AgentMetricSummary V))
        → P s
        → All P table
        → All P (upsert s table)
    unfolding upsert
    upsert-All s [] p ps = (p, tt)
    upsert-All s (q ∷ table) p (pq, ps) = elim (Bool-cases (same_key q s)) [
      | inl same ↦ rw (same, upsert) (p, ps)
      | inr other ↦ rw (other, upsert) (pq, upsert-All s table p ps)
    ]

    pub upsert_all-All :
        (rows table : List (AgentMetricSummary V))
        → All P rows
        → All P table
        → All P (upsert_all rows table)
    unfolding upsert_all
    upsert_all-All [] table ps qs = qs
    upsert_all-All (s ∷ rows) table (p, ps) qs =
        upsert_all-All rows (upsert s table) ps (upsert-All s table p qs)

    pub All-Held :
        (rows : List (AgentMetricSummary V))
        → ((s : AgentMetricSummary V) → Held s rows → P s)
        → All P rows
    All-Held [] f = tt
    All-Held (s ∷ rows) f = (f s (inl refl), All-Held rows (λ q h. f q (inr h)))

    pub Held-All :
        (s : AgentMetricSummary V) (rows : List (AgentMetricSummary V))
        → All P rows
        → Held s rows
        → P s
    Held-All s [] ps h = absurd h
    Held-All s (q ∷ rows) (p, ps) (inl e) = rw (← e) p
    Held-All s (q ∷ rows) (p, ps) (inr h) = Held-All s rows ps h

    pub All-keep_if :
        (t : AgentMetricSummary V → Bool) (rows : List (AgentMetricSummary V))
        → ((s : AgentMetricSummary V) → Held s rows → t s ≡ true → P s)
        → All P (keep_if t rows)
    All-keep_if t [] f = tt
    All-keep_if t (s ∷ rows) f =
        let rest = All-keep_if t rows (λ q h. f q (inr h)) in
        elim (Bool-cases (t s)) [
          | inl passed ↦ rw passed (f s (inl refl) passed, rest)
          | inr gone ↦ rw gone rest
        ]

    pub All-kept :
        (t : AgentMetricSummary V → Bool) (rows : List (AgentMetricSummary V))
        → All P rows
        → All P (keep_if t rows)
    All-kept t [] ps = tt
    All-kept t (s ∷ rows) (p, ps) =
        let rest = All-kept t rows ps in
        elim (Bool-cases (t s)) [ inl passed ↦ rw passed (p, rest) | inr gone ↦ rw gone rest ]

    pub add_to_groups-heads :
        (s : AgentMetricSummary V) (gs : List (AgentMetricSummary V × List (AgentMetricSummary V)))
        → P s
        → All (λ g. P g.0) gs
        → All (λ g. P g.0) (add_to_groups s gs)
    unfolding add_to_groups
    add_to_groups-heads s [] p ps = (p, tt)
    add_to_groups-heads s ((g, rest) ∷ gs) p (q, ps) = elim (Bool-cases (same_key g s)) [
      | inl same ↦ rw (same, add_to_groups) (p, ps)
      | inr other ↦ rw (other, add_to_groups) (q, add_to_groups-heads s gs p ps)
    ]

    pub group_rows-heads :
        (rows : List (AgentMetricSummary V)) → All P rows → All (λ g. P g.0) (group_rows rows)
    unfolding group_rows
    group_rows-heads [] ps = tt
    group_rows-heads (s ∷ rows) (p, ps) =
        add_to_groups-heads s (group_rows rows) p (group_rows-heads rows ps)

  pub Unique-keep_if :
      (t : AgentMetricSummary V → Bool) (rows : List (AgentMetricSummary V))
      → Unique rows
      → Unique (keep_if t rows)
  Unique-keep_if t [] u = tt
  Unique-keep_if t (s ∷ rows) (u, us) =
      let rest = Unique-keep_if t rows us in
      elim (Bool-cases (t s)) [
        | inl passed ↦ rw passed (All-kept (λ q. same_key q s ≡ false) t rows u, rest)
        | inr gone ↦ rw gone rest
      ]

  -- A row without its like in the groups is a group of its own.
  pub add_to_groups-new :
      (P : AgentMetricSummary V × List (AgentMetricSummary V) → Type 0) (s : AgentMetricSummary V)
      (gs : List (AgentMetricSummary V × List (AgentMetricSummary V)))
      → All (λ g. same_key g.0 s ≡ false) gs
      → P (s, [])
      → All P gs
      → All P (add_to_groups s gs)
  unfolding add_to_groups
  add_to_groups-new P s [] u p ps = (p, tt)
  add_to_groups-new P s ((g, rest) ∷ gs) (u, us) p (q, ps) =
      rw (u, add_to_groups) (q, add_to_groups-new P s gs us p ps)

  pub group_rows-single :
      (Q : AgentMetricSummary V → Type 0) (rows : List (AgentMetricSummary V))
      → Unique rows
      → All Q rows
      → All (λ g. (g.1 ≡ []) × Q g.0) (group_rows rows)
  unfolding group_rows
  group_rows-single Q [] u qs = tt
  group_rows-single Q (s ∷ rows) (u, us) (q, qs) =
      add_to_groups-new (λ g. (g.1 ≡ []) × Q g.0) s (group_rows rows)
        (group_rows-heads (λ g. same_key g s ≡ false) rows u) (refl, q)
        (group_rows-single Q rows us qs)
