-- ===== src/AgentMetrics/Quarter.antt =====
-- internal/store/agent_metrics.go: what AggregateAgentMetrics15Min writes.
use whatsupp.Base.{
  ℕ, ◌*◌, ◌/◌, ◌≡◌, refl, Bool, true, List, [], ◌∷◌, keep_if, map, inl, inr, ◌⊎◌, All,
}
use whatsupp.AgentMetrics.{
  AgentMetricSummary, MetricTables, Database, DatabaseLaws, Held, group_rows, set_bucket, least,
  greatest, merge, grouped, in_window, aggregate_agent_metrics_15min,
}
use whatsupp.AgentMetrics.Rows.{
  Unique, upsert_all-All, All-Held, Held-All, All-keep_if, Unique-keep_if, group_rows-single,
}

module _ {V : Type 0} (db : Database V) (laws : DatabaseLaws db) where
  All-group_order :
      (P : AgentMetricSummary V → Type 0) (rows : List (AgentMetricSummary V))
      → All P rows
      → All P (db.group_order rows)
  All-group_order P rows ps =
      All-Held P (db.group_order rows)
        λ s h. Held-All P s rows ps (laws.group_order_adds_none s rows h)

  All-merge :
      (Q : AgentMetricSummary V → Type 0)
      (gs : List (AgentMetricSummary V × List (AgentMetricSummary V)))
      → All (λ g. (g.1 ≡ []) × Q g.0) gs
      → All Q (map (merge db) gs)
  All-merge Q [] ps = tt
  All-merge Q ((g, rest) ∷ gs) ((single, q), ps) =
      let same : merge db (g, rest) ≡ g =
        rw single (unfold merge least greatest in rw (laws.average_one g.avg, merge) refl) in
      (rw same q, All-merge Q gs ps)

  All-set_bucket :
      (Q : AgentMetricSummary V → Type 0) (f : ℕ → ℕ) (rows : List (AgentMetricSummary V))
      → All (λ s. Q (set_bucket f s)) rows
      → All Q (map (set_bucket f) rows)
  All-set_bucket Q f [] ps = tt
  All-set_bucket Q f (s ∷ rows) (p, ps) = (p, All-set_bucket Q f rows ps)

  -- The row has the values of one 5-minute row of the window, for the bucket of 15 minutes around it.
  abbrev pub FromOne : ℕ → ℕ → List (AgentMetricSummary V) → AgentMetricSummary V → Type 0
  FromOne from to rows r =
      (q : AgentMetricSummary V) × Held q rows
      × (in_window from to q.bucket ≡ true)
      × (r ≡ record q { bucket = q.bucket / 900 * 900 })

  -- Every row of the 15-minute table after an aggregation was there before, or has the average, the
  -- minimum and the maximum of one row of the 5-minute table, whose keys are unique, and not of the
  -- three rows of its 15 minutes.
  pub aggregate_15min_keeps_one :
      (from to : ℕ) (t : MetricTables V)
      → Unique t.agent_metrics_5min
      → All
          (λ r. Held r t.agent_metrics_15min ⊎ FromOne from to t.agent_metrics_5min r)
          (aggregate_agent_metrics_15min db from to t).agent_metrics_15min
  unfolding aggregate_agent_metrics_15min grouped
  aggregate_15min_keeps_one from to t u =
      let Result : AgentMetricSummary V → Type 0 =
        λ r. Held r t.agent_metrics_15min ⊎ FromOne from to t.agent_metrics_5min r in
      let floor : ℕ → ℕ = λ b. b / 900 * 900 in
      let window : AgentMetricSummary V → Bool = λ s. in_window from to s.bucket in
      let rows = keep_if window t.agent_metrics_5min in
      let Moved : AgentMetricSummary V → Type 0 = λ s. Result (set_bucket floor s) in
      let singles = group_rows-single Moved rows (Unique-keep_if window t.agent_metrics_5min u) (
        All-keep_if Moved window t.agent_metrics_5min
          λ s held inside. inr (s, held, inside, refl)) in
      let ordered =
        All-group_order Moved (map (merge db) (group_rows rows))
          (All-merge Moved (group_rows rows) singles) in
      upsert_all-All Result (map (set_bucket floor) (grouped db rows)) t.agent_metrics_15min
        (All-set_bucket Result floor (grouped db rows) ordered)
        (All-Held Result t.agent_metrics_15min λ s held. inl held)
