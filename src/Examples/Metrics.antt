-- ===== src/Examples/Metrics.antt =====
-- internal/store/agent_metrics.go: metrics with natural numbers for values.
use whatsupp.Base.{
  ℕ, suc, ◌+◌, ◌*◌, ◌/◌, ◌≡◌, ◌⊎◌, refl, false, List, [], ◌∷◌, arith, leb, str_eq, length, inl, inr,
  All,
}
use whatsupp.Ingest.{AgentMetricRow}
use whatsupp.AgentMetrics.{
  AgentMetricSummary, MetricTables, Database, DatabaseLaws, Held, as_summary, add_to_groups,
  group_rows, upsert, upsert_all, least, greatest, merge, grouped, aggregate_agent_metrics_5min,
  aggregate_agent_metrics_15min,
}
use whatsupp.AgentMetrics.Rows.{Unique}
use whatsupp.AgentMetrics.Quarter.{FromOne, aggregate_15min_keeps_one}
use whatsupp.AgentMetrics.Enclosing.{Enclosed, aggregate_5min_encloses}
use whatsupp.AgentMetrics.Queries.{host_metrics, five_min_round, hourly_round, daily_round}
use whatsupp.AgentMetrics.Retention.{without_cleanups, rounds_keep_answers}

abbrev sum : List ℕ → ℕ
sum [] = 0
sum (v ∷ vs) = v + sum vs

abbrev mean : ℕ → List ℕ → ℕ
mean v [] = v
mean v (w ∷ vs) = (v + sum (w ∷ vs)) / suc (length (w ∷ vs))

abbrev pub db : Database ℕ
db = record { leq = leb; average = mean; group_order = λ rows. rows; like = str_eq }

db-laws : DatabaseLaws db
db-laws = record {
  leq_refl = λ v. ground arith;
  leq_trans = λ v w x e f. ground (arith, e, f);
  leq_total = λ v w e. ground (arith, e);
  average_one = λ v. refl;
  group_order_loses_none = λ r rows h. h;
  group_order_adds_none = λ r rows h. h;
}

abbrev sample : ℕ → ℕ → AgentMetricRow ℕ
sample t v = record { host = "nas"; timestamp = t; metric_name = "cpu"; value = v }

abbrev five : ℕ → ℕ → AgentMetricSummary ℕ
five t v = record { host = "nas"; bucket = t; metric_name = "cpu"; avg = v; min = v; max = v }

abbrev tables : MetricTables ℕ
tables = record {
  agent_metrics = sample 910 7 ∷ sample 950 3 ∷ [];
  agent_metrics_5min = five 900 1 ∷ five 1200 9 ∷ five 1500 4 ∷ [];
  agent_metrics_15min = [];
  agent_metrics_hourly = [];
  agent_metrics_daily = [];
}

five-Unique : Unique tables.agent_metrics_5min
five-Unique = ((refl, (refl, tt)), ((refl, tt), (tt, tt)))

-- The minimum of the three rows is 1 and the maximum 9.
quarter_loses :
    (aggregate_agent_metrics_15min db 900 1800 tables).agent_metrics_15min ≡ five 900 1 ∷ []
unfolding aggregate_agent_metrics_15min grouped group_rows add_to_groups merge least greatest
    upsert_all upsert
quarter_loses = refl

aggregate_15min_keeps_one_example :
    All
      (λ r. Held r [] ⊎ FromOne db db-laws 900 1800 tables.agent_metrics_5min r)
      (aggregate_agent_metrics_15min db 900 1800 tables).agent_metrics_15min
aggregate_15min_keeps_one_example = aggregate_15min_keeps_one db db-laws 900 1800 tables five-Unique

aggregate_5min_encloses_example :
    Enclosed db db-laws
      (record (as_summary (sample 950 3)) { bucket = 950 / 300 * 300 })
      (aggregate_agent_metrics_5min db 900 1200 tables).agent_metrics_5min
aggregate_5min_encloses_example =
    aggregate_5min_encloses db db-laws 900 1200 tables (sample 950 3) (inr (inl refl)) refl

rounds_keep_answers_example :
    let answer = λ (u : MetricTables ℕ). host_metrics db false "nas" 900 2_000 [] u in
    let aggregated = without_cleanups (λ n. false) in
    (answer (five_min_round db (λ n. false) 2_000 tables)
      ≡ answer (five_min_round db aggregated 2_000 tables))
    × (answer (hourly_round db (λ n. false) 2_000 tables)
        ≡ answer (hourly_round db aggregated 2_000 tables))
    × (answer (daily_round db (λ n. false) 0 86_400 2_000 tables)
        ≡ answer (daily_round db aggregated 0 86_400 2_000 tables))
rounds_keep_answers_example =
    rounds_keep_answers db (λ n. false) false "nas" 900 2_000 [] 0 86_400 tables
