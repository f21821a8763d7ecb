-- ===== src/AgentMetrics/Shown.antt =====
-- internal/api/handlers.go, internal/store/agent_metrics.go: metrics from the push of an agent to the
-- answer of GetHostMetrics.
use whatsupp.Base.{
  ℕ, ◌≤◌, ◌+◌, ◌≡◌, refl, String, false, List, [], ◌∷◌, ◌++◌, Option, some, arith, ltb, eq_iff, map,
  keep_if, Listed, keep_if-Listed, map-Listed, Listed-right, Bool-cases, Option-cases, inl, inr,
}
use whatsupp.Agent.Buffer.{Metric}
use whatsupp.Ingest.{
  AgentMetricRow, AgentMetricsPayload, AgentTables, Faults, stored, time_of, metric_row, push,
  agent_key_auth, store_metrics, post_agent_metrics,
}
use whatsupp.AgentMetrics.{
  AgentMetricSummary, MetricTables, Database, select_agent_metric_tier, as_summary, hour,
}
use whatsupp.AgentMetrics.Queries.{
  insert_by_bucket, by_bucket, flatten_one, flatten_summaries, asked, query_agent_metrics_summary,
  query_agent_metrics_raw, host_metrics,
}

module _ {V : Type 0} where
  first-Listed :
      (s : AgentMetricSummary V) (rows : List (AgentMetricSummary V))
      → Listed s (insert_by_bucket s rows)
  unfolding insert_by_bucket
  first-Listed s [] = inl refl
  first-Listed s (q ∷ rows) = elim (Bool-cases (ltb q.bucket s.bucket)) [
    | inl before ↦ rw before (inr (first-Listed s rows))
    | inr after ↦ rw after (inl refl)
  ]

  later-Listed :
      (x s : AgentMetricSummary V) (rows : List (AgentMetricSummary V))
      → Listed x rows
      → Listed x (insert_by_bucket s rows)
  unfolding insert_by_bucket
  later-Listed x s [] h = absurd h
  later-Listed x s (q ∷ rows) h = elim (Bool-cases (ltb q.bucket s.bucket)) [
    | inr after ↦ rw after (inr h)
    | inl before ↦
        rw before (elim h [ inl same ↦ inl same | inr later ↦ inr (later-Listed x s rows later) ])
  ]

  by_bucket-Listed :
      (x : AgentMetricSummary V) (rows : List (AgentMetricSummary V))
      → Listed x rows
      → Listed x (by_bucket rows)
  unfolding by_bucket
  by_bucket-Listed x [] h = h
  by_bucket-Listed x (s ∷ rows) (inl same) = rw same (first-Listed s (by_bucket rows))
  by_bucket-Listed x (s ∷ rows) (inr h) =
      later-Listed x s (by_bucket rows) (by_bucket-Listed x rows h)

  -- A push that is answered as stored has put the rows of its metrics behind the others.
  push-rows :
      (keys : List (String × String)) (f : Faults) (now : ℕ) (bearer : Option String)
      (p : AgentMetricsPayload V) (t t' : AgentTables V)
      → push keys f now bearer (some p) t ≡ (stored, t')
      → t'.agent_metrics
        ≡ t.agent_metrics ++ map (metric_row p.host (time_of p.timestamp now)) p.metrics
  unfolding push post_agent_metrics store_metrics
  push-rows keys f now bearer p t t' e =
      ground (arith, e, Option-cases (agent_key_auth keys bearer))

answered_raw :
    {V : Type 0} (db : Database V) (host : String) (from to : ℕ) (tables : MetricTables V)
    → to ≤ from + hour
    → host_metrics db false host from to [] tables
      ≡ some (query_agent_metrics_raw db host from to [] tables.agent_metrics)
unfolding host_metrics select_agent_metric_tier
answered_raw db host from to tables short = ground arith

module _ {V : Type 0} (db : Database V) (host : String) (from to at : ℕ) where
  raw-Listed :
      from ≤ at
      → at ≤ to
      → (m : Metric V) (table : List (AgentMetricRow V)) → Listed (metric_row host at m) table
      → Listed (metric_row host at m) (query_agent_metrics_raw db host from to [] table)
  unfolding query_agent_metrics_raw query_agent_metrics_summary flatten_summaries metric_row
  raw-Listed after before m table h =
      let row : AgentMetricRow V = metric_row host at m in
      let found = map-Listed as_summary row table h in
      let kept =
        keep_if-Listed (asked db host from to []) (as_summary row) (map as_summary table) found
          (unfold asked in ground (arith, after, before, eq_iff host host)) in
      map-Listed (flatten_one host) (as_summary row)
        (by_bucket (keep_if (asked db host from to []) (map as_summary table)))
        (by_bucket-Listed (as_summary row) _ kept)

-- A metric of a push that is answered as stored, whatever the other statements of the push do, is
-- among the metrics that a request for its host answers with, under its name and with its value,
-- where no names are asked for, the query does not fail, and the range is at most an hour and holds
-- the time of the push.
pub pushed_metric_is_shown :
    {V : Type 0} (db : Database V) (keys : List (String × String)) (f : Faults) (now from to : ℕ)
    (bearer : Option String) (p : AgentMetricsPayload V) (t t' : AgentTables V)
    (tables : MetricTables V) (m : Metric V)
    → push keys f now bearer (some p) t ≡ (stored, t')
    → Listed m p.metrics
    → tables.agent_metrics ≡ t'.agent_metrics
    → from ≤ time_of p.timestamp now
    → time_of p.timestamp now ≤ to
    → to ≤ from + hour
    → (rows : List (AgentMetricRow V)) × (host_metrics db false p.host from to [] tables
        ≡ some rows)
      × Listed (metric_row p.host (time_of p.timestamp now) m) rows
pushed_metric_is_shown db keys f now from to bearer p t t' tables m e held same after before short =
    let at = time_of p.timestamp now in
    let batch = map-Listed (metric_row p.host at) m p.metrics held in
    let row = Listed-right (metric_row p.host at m) t.agent_metrics _ batch in
    (
      query_agent_metrics_raw db p.host from to [] tables.agent_metrics,
      answered_raw db p.host from to tables short,
      raw-Listed db p.host from to at after before m tables.agent_metrics
          (rw (same, push-rows keys f now bearer p t t' e) row),
    )
