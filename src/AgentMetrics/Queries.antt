-- ===== src/AgentMetrics/Queries.antt =====
-- The queries and the cleanups of internal/store/agent_metrics.go, the rounds of the downsampler
-- (internal/hub/downsampler.go) for agent metrics, and GetHostMetrics of internal/api/handlers.go.
use whatsupp.Base.{
  ℕ, ◌-◌, ◌*◌, ◌/◌, String, Bool, true, false, not, ◌&&◌, ◌||◌, List, [], ◌∷◌, Option, none, some,
  ltb, leb, str_eq, if◌then◌else◌, keep_if, map,
}
use whatsupp.Ingest.{AgentMetricRow}
use whatsupp.AgentMetrics.{
  AgentMetricSummary, MetricTables, Database, raw, five_min, fifteen_min, hourly, daily,
  select_agent_metric_tier, as_summary, aggregate_agent_metrics_5min, aggregate_agent_metrics_15min,
  aggregate_agent_metrics_hourly, aggregate_agent_metrics_daily, hour, retain_agent_metrics_raw,
  retain_agent_metrics_5min, retain_agent_metrics_15min, retain_hourly,
}

module _ {V : Type 0} where
  -- ORDER BY the bucket.
  unfoldable pub insert_by_bucket :
      AgentMetricSummary V → List (AgentMetricSummary V) → List (AgentMetricSummary V)
  insert_by_bucket s [] = s ∷ []
  insert_by_bucket s (q ∷ rows) =
      let rest = insert_by_bucket s rows in if ltb q.bucket s.bucket then q ∷ rest else s ∷ q ∷ rows

  unfoldable pub by_bucket : List (AgentMetricSummary V) → List (AgentMetricSummary V)
  unfolding insert_by_bucket
  by_bucket [] = []
  by_bucket (s ∷ rows) = insert_by_bucket s (by_bucket rows)

  unfoldable pub flatten_one : String → AgentMetricSummary V → AgentMetricRow V
  flatten_one host s = record {
    host = host;
    timestamp = s.bucket;
    metric_name = s.metric_name;
    value = s.avg;
  }

  unfoldable pub flatten_summaries : String → List (AgentMetricSummary V) → List (AgentMetricRow V)
  unfolding flatten_one
  flatten_summaries host = map (flatten_one host)

  unfoldable pub delete_old_agent_metrics : ℕ → MetricTables V → MetricTables V
  delete_old_agent_metrics cutoff t = record t {
    agent_metrics = keep_if (λ r. not (ltb r.timestamp cutoff)) t.agent_metrics;
  }

  abbrev pub recent : ℕ → List (AgentMetricSummary V) → List (AgentMetricSummary V)
  recent cutoff = keep_if (λ s. not (ltb s.bucket cutoff))

  unfoldable pub delete_old_agent_metrics_5min : ℕ → MetricTables V → MetricTables V
  delete_old_agent_metrics_5min cutoff t = record t {
    agent_metrics_5min = recent cutoff t.agent_metrics_5min;
  }

  unfoldable pub delete_old_agent_metrics_15min : ℕ → MetricTables V → MetricTables V
  delete_old_agent_metrics_15min cutoff t = record t {
    agent_metrics_15min = recent cutoff t.agent_metrics_15min;
  }

  unfoldable pub delete_old_agent_metrics_hourly : ℕ → MetricTables V → MetricTables V
  delete_old_agent_metrics_hourly cutoff t = record t {
    agent_metrics_hourly = recent cutoff t.agent_metrics_hourly;
  }

  -- A statement whose error is only logged.
  abbrev pub attempt : Bool → (MetricTables V → MetricTables V) → MetricTables V → MetricTables V
  attempt fails f t = if fails then t else f t

module _ {V : Type 0} (db : Database V) where
  unfoldable pub matches_names : List String → String → Bool
  matches_names [] name = false
  matches_names (n ∷ names) name = db.like n name || matches_names names name

  abbrev pub any_name : List String → String → Bool
  any_name [] name = true
  any_name (n ∷ names) name = matches_names (n ∷ names) name

  unfoldable pub asked : String → ℕ → ℕ → List String → AgentMetricSummary V → Bool
  unfolding matches_names
  asked host from to names s =
      str_eq s.host host && (leb from s.bucket && leb s.bucket to) && any_name names s.metric_name

  unfoldable pub query_agent_metrics_summary :
      String → ℕ → ℕ → List String → List (AgentMetricSummary V) → List (AgentMetricSummary V)
  unfolding by_bucket asked
  query_agent_metrics_summary host from to names table =
      by_bucket (keep_if (asked host from to names) table)

  -- A raw row is the flattened summary of itself.
  unfoldable pub query_agent_metrics_raw :
      String → ℕ → ℕ → List String → List (AgentMetricRow V) → List (AgentMetricRow V)
  unfolding query_agent_metrics_summary flatten_summaries as_summary
  query_agent_metrics_raw host from to names table =
      flatten_summaries host (query_agent_metrics_summary host from to names (map as_summary table))

  -- The rows that GetHostMetrics answers with; none for an error of the query.
  unfoldable pub host_metrics :
      Bool → String → ℕ → ℕ → List String → MetricTables V → Option (List (AgentMetricRow V))
  unfolding query_agent_metrics_raw select_agent_metric_tier
  host_metrics fails host from to names t =
      let answer : List (AgentMetricSummary V) → List (AgentMetricRow V) =
        λ table. flatten_summaries host (query_agent_metrics_summary host from to names table) in
      if fails
      then none
      else some (elim (select_agent_metric_tier (to - from)) [
        | raw ↦ query_agent_metrics_raw host from to names t.agent_metrics
        | five_min ↦ answer t.agent_metrics_5min
        | fifteen_min ↦ answer t.agent_metrics_15min
        | hourly ↦ answer t.agent_metrics_hourly
        | daily ↦ answer t.agent_metrics_daily
      ])

  -- One round of fiveMinLoop; `fails` says which of its statements fail.
  unfoldable pub five_min_round : (ℕ → Bool) → ℕ → MetricTables V → MetricTables V
  unfolding aggregate_agent_metrics_5min delete_old_agent_metrics
  five_min_round fails now t =
      let end = now / 300 * 300 in
      attempt (fails 1) (delete_old_agent_metrics (now - retain_agent_metrics_raw))
        (attempt (fails 0) (aggregate_agent_metrics_5min db (end - 300) end) t)

  unfoldable pub fifteen_min_round : (ℕ → Bool) → ℕ → MetricTables V → MetricTables V
  unfolding aggregate_agent_metrics_15min
  fifteen_min_round fails now t =
      let end = now / 900 * 900 in
      attempt (fails 0) (aggregate_agent_metrics_15min db (end - 900) end) t

  -- The part of runHourlyAggregation for agent metrics.
  unfoldable pub hourly_round : (ℕ → Bool) → ℕ → MetricTables V → MetricTables V
  unfolding aggregate_agent_metrics_hourly delete_old_agent_metrics_5min
      delete_old_agent_metrics_15min
  hourly_round fails now t =
      let hour_end = now / hour * hour in
      attempt (fails 2) (delete_old_agent_metrics_15min (now - retain_agent_metrics_15min)) (
        attempt (fails 1) (delete_old_agent_metrics_5min (now - retain_agent_metrics_5min))
          (attempt (fails 0) (aggregate_agent_metrics_hourly db (hour_end - hour) hour_end) t))

  -- The part of runDailyAggregation for agent metrics; the day's bounds come from the time zone.
  unfoldable pub daily_round : (ℕ → Bool) → ℕ → ℕ → ℕ → MetricTables V → MetricTables V
  unfolding aggregate_agent_metrics_daily delete_old_agent_metrics_hourly
  daily_round fails day_start day_end now t =
      attempt (fails 1) (delete_old_agent_metrics_hourly (now - retain_hourly))
        (attempt (fails 0) (aggregate_agent_metrics_daily db day_start day_end) t)
