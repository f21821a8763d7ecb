-- ===== src/AgentMetrics/Retention.antt =====
-- internal/hub/downsampler.go, internal/api/handlers.go: the cleanups of agent metrics and the answers.
use whatsupp.Base.{
  ℕ, ◌-◌, ◌*◌, ◌≤◌, ◌≡◌, refl, ap, String, Bool, false, not, List, [], ◌∷◌, arith, leb, ltb,
  keep_if, map, Bool-cases, inl, inr, zero, suc, true, Option, ◌∙◌,
}
use whatsupp.Ingest.{AgentMetricRow}
use whatsupp.AgentMetrics.{
  AgentMetricSummary, MetricTables, Database, as_summary, select_agent_metric_tier, hour, day,
  retain_agent_metrics_raw, retain_agent_metrics_5min, retain_agent_metrics_15min, retain_hourly,
}
use whatsupp.AgentMetrics.Queries.{
  five_min_round, hourly_round, daily_round, recent, asked, query_agent_metrics_summary,
  query_agent_metrics_raw, host_metrics, delete_old_agent_metrics, delete_old_agent_metrics_5min,
  delete_old_agent_metrics_15min, delete_old_agent_metrics_hourly,
}

module _ {V : Type 0} (db : Database V) (host : String) (from to : ℕ) (names : List String) where
  asked-recent :
      (cutoff : ℕ) (rows : List (AgentMetricSummary V))
      → cutoff ≤ from
      → keep_if (asked db host from to names) (recent cutoff rows)
        ≡ keep_if (asked db host from to names) rows
  asked-recent cutoff [] h = refl
  asked-recent cutoff (s ∷ rows) h = elim (Bool-cases (ltb s.bucket cutoff)) [
    | inl old ↦
        let unasked : asked db host from to names s ≡ false =
          unfold asked in ground (arith, old, h) in
        rw (old, unasked) (asked-recent cutoff rows h)
    | inr new ↦ rw new (elim (Bool-cases (asked db host from to names s)) [
      | inl wanted ↦ rw wanted (ap (λ rest. s ∷ rest) (asked-recent cutoff rows h))
      | inr unwanted ↦ rw unwanted (asked-recent cutoff rows h)
    ])
  ]

  map-recent :
      (cutoff : ℕ) (rows : List (AgentMetricRow V))
      → map as_summary (keep_if (λ r. not (ltb r.timestamp cutoff)) rows)
        ≡ recent cutoff (map as_summary rows)
  unfolding as_summary
  map-recent cutoff [] = refl
  map-recent cutoff (r ∷ rows) = elim (Bool-cases (ltb r.timestamp cutoff)) [
    | inl old ↦ rw old (map-recent cutoff rows)
    | inr new ↦ rw new (ap (λ rest. as_summary r ∷ rest) (map-recent cutoff rows))
  ]

  query-recent :
      (cutoff : ℕ) (rows : List (AgentMetricSummary V))
      → cutoff ≤ from
      → query_agent_metrics_summary db host from to names (recent cutoff rows)
        ≡ query_agent_metrics_summary db host from to names rows
  unfolding query_agent_metrics_summary
  query-recent cutoff rows h = rw (asked-recent cutoff rows h) refl

  query_raw-recent :
      (cutoff : ℕ) (rows : List (AgentMetricRow V))
      → cutoff ≤ from
      → query_agent_metrics_raw db host from to names
          (keep_if (λ r. not (ltb r.timestamp cutoff)) rows)
        ≡ query_agent_metrics_raw db host from to names rows
  unfolding query_agent_metrics_raw
  query_raw-recent cutoff rows h =
      rw (map-recent cutoff rows, query-recent cutoff (map as_summary rows) h) refl

-- A cleanup changes the rows of one tier, and those only before the range of a request for it.
module _ {V : Type 0} (db : Database V) (unread : Bool) (host : String) (from now : ℕ)
    (names : List String) where
  abbrev answer : MetricTables V → Option (List (AgentMetricRow V))
  answer t = host_metrics db unread host from now names t

  answer-raw :
      (t : MetricTables V)
      → answer (delete_old_agent_metrics (now - retain_agent_metrics_raw) t) ≡ answer t
  unfolding host_metrics select_agent_metric_tier delete_old_agent_metrics
  answer-raw t = elim (Bool-cases (leb (now - from) hour)) [
    | inl short ↦ ground (
      arith,
      short,
      query_raw-recent db host from now names (now - retain_agent_metrics_raw) t.agent_metrics
          (ground (arith, short)),
    )
    | inr long ↦ ground (arith, long)
  ]

  answer-5min :
      (t : MetricTables V)
      → answer (delete_old_agent_metrics_5min (now - retain_agent_metrics_5min) t) ≡ answer t
  unfolding host_metrics select_agent_metric_tier delete_old_agent_metrics_5min
  answer-5min t = elim (Bool-cases (leb (now - from) (6 * hour))) [
    | inl short ↦ ground (
      arith,
      short,
      query-recent db host from now names (now - retain_agent_metrics_5min) t.agent_metrics_5min
          (ground (arith, short)),
    )
    | inr long ↦ ground (arith, long)
  ]

  answer-15min :
      (t : MetricTables V)
      → answer (delete_old_agent_metrics_15min (now - retain_agent_metrics_15min) t) ≡ answer t
  unfolding host_metrics select_agent_metric_tier delete_old_agent_metrics_15min
  answer-15min t = elim (Bool-cases (leb (now - from) (48 * hour))) [
    | inl short ↦ ground (
      arith,
      short,
      query-recent db host from now names (now - retain_agent_metrics_15min) t.agent_metrics_15min
          (ground (arith, short)),
    )
    | inr long ↦ ground (arith, long)
  ]

  answer-hourly :
      (t : MetricTables V)
      → answer (delete_old_agent_metrics_hourly (now - retain_hourly) t) ≡ answer t
  unfolding host_metrics select_agent_metric_tier delete_old_agent_metrics_hourly
  answer-hourly t = elim (Bool-cases (leb (now - from) (7 * day))) [
    | inl short ↦ ground (
      arith,
      short,
      query-recent db host from now names (now - retain_hourly) t.agent_metrics_hourly
          (ground (arith, short)),
    )
    | inr long ↦ ground (arith, long)
  ]

-- The statements of a round, of which the first is the aggregation, with every cleanup failing.
abbrev pub without_cleanups : (ℕ → Bool) → ℕ → Bool
without_cleanups fails zero = fails 0
without_cleanups fails (suc n) = true

-- Whatever statements fail, the cleanups of a round of the downsampler lose nothing that a range up
-- to the time of the round asks for: GetHostMetrics answers as if the round had only aggregated,
-- after a round of the 5-minute loop, of the hourly and of the daily aggregation.
pub rounds_keep_answers :
    {V : Type 0} (db : Database V) (fails : ℕ → Bool) (unread : Bool) (host : String) (from now : ℕ)
    (names : List String) (day_start day_end : ℕ) (t : MetricTables V)
    → let answer = λ (u : MetricTables V). host_metrics db unread host from now names u in
      let aggregated = without_cleanups fails in
      (answer (five_min_round db fails now t) ≡ answer (five_min_round db aggregated now t))
      × (answer (hourly_round db fails now t) ≡ answer (hourly_round db aggregated now t))
      × (answer (daily_round db fails day_start day_end now t)
          ≡ answer (daily_round db aggregated day_start day_end now t))
unfolding five_min_round hourly_round daily_round
rounds_keep_answers db fails unread host from now names day_start day_end t = (
  elim (Bool-cases (fails 1)) [
    | inl e ↦ rw e refl
    | inr e ↦ rw e (answer-raw db unread host from now names _)
  ],
  elim (Bool-cases (fails 1)) [
    | inl e ↦ rw e (elim (Bool-cases (fails 2)) [
      | inl e' ↦ rw e' refl
      | inr e' ↦ rw e' (answer-15min db unread host from now names _)
    ])
    | inr e ↦ rw e (elim (Bool-cases (fails 2)) [
      | inl e' ↦ rw e' (answer-5min db unread host from now names _)
      | inr e' ↦ rw e' (
          answer-15min db unread host from now names _
          ∙ answer-5min db unread host from now names _)
    ])
  ],
  elim (Bool-cases (fails 1)) [
    | inl e ↦ rw e refl
    | inr e ↦ rw e (answer-hourly db unread host from now names _)
  ],
)
