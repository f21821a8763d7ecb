-- ===== src/AgentMetrics.antt =====
-- The storage tiers of agent metrics: the statements of internal/store/agent_metrics.go, the rounds of
-- internal/hub/downsampler.go that run them, and GetHostMetrics of internal/api/handlers.go. Times are
-- seconds of the Unix epoch.
pub mod Queries
pub mod Rows
pub mod Groups
pub mod Quarter
pub mod Enclosing
pub mod Retention
pub mod Shown
use whatsupp.Base.{
  ℕ, ◌≡◌, ◌⊎◌, ◌-◌, ◌*◌, ◌/◌, String, Bool, true, false, not, ◌&&◌, ◌||◌, List, [], ◌∷◌, Option,
  none, some, ltb, leb, ◌==◌, str_eq, if◌then◌else◌, keep_if, map,
}
use whatsupp.Ingest.{AgentMetricRow}

pub record AgentMetricSummary (V : Type 0) : Type 0 where
  pub host : String
  pub bucket : ℕ
  pub metric_name : String
  pub avg : V
  pub min : V
  pub max : V

-- The five tables.
pub record MetricTables (V : Type 0) : Type 0 where
  pub agent_metrics : List (AgentMetricRow V)
  pub agent_metrics_5min : List (AgentMetricSummary V)
  pub agent_metrics_15min : List (AgentMetricSummary V)
  pub agent_metrics_hourly : List (AgentMetricSummary V)
  pub agent_metrics_daily : List (AgentMetricSummary V)

-- What the database does with the values of a metric: their order, AVG, the order in which a GROUP BY
-- gives its rows, and LIKE with a name and a wildcard after it.
pub record Database (V : Type 0) : Type 0 where
  pub leq : V → V → Bool
  pub average : V → List V → V
  pub group_order : List (AgentMetricSummary V) → List (AgentMetricSummary V)
  pub like : String → String → Bool

abbrev pub hour : ℕ
hour = 3_600

abbrev pub day : ℕ
day = 24 * hour

abbrev pub retain_agent_metrics_raw : ℕ
retain_agent_metrics_raw = 6 * hour

abbrev pub retain_agent_metrics_5min : ℕ
retain_agent_metrics_5min = 24 * hour

abbrev pub retain_agent_metrics_15min : ℕ
retain_agent_metrics_15min = 7 * day

abbrev pub retain_hourly : ℕ
retain_hourly = 90 * day

abbrev pub in_window : ℕ → ℕ → ℕ → Bool
in_window from to t = leb from t && ltb t to

pub data MetricTier : Type 0 where
  raw five_min fifteen_min hourly daily : MetricTier

unfoldable pub select_agent_metric_tier : ℕ → MetricTier
select_agent_metric_tier duration =
    if leb duration hour
    then raw
    else if leb duration (6 * hour)
    then five_min
    else if leb duration (48 * hour)
    then fifteen_min
    else if leb duration (7 * day)
    then hourly
    else daily

module _ {V : Type 0} where
  -- A raw row as a summary of itself.
  unfoldable pub as_summary : AgentMetricRow V → AgentMetricSummary V
  as_summary r = record {
    host = r.host;
    bucket = r.timestamp;
    metric_name = r.metric_name;
    avg = r.value;
    min = r.value;
    max = r.value;
  }

  abbrev pub same_key : AgentMetricSummary V → AgentMetricSummary V → Bool
  same_key s q =
      str_eq s.host q.host && (s.bucket == q.bucket && str_eq s.metric_name q.metric_name)

  abbrev pub Held : AgentMetricSummary V → List (AgentMetricSummary V) → Type 0
  Held s [] = ⊥
  Held s (q ∷ rows) = (q ≡ s) ⊎ Held s rows

  -- A group is its first row and the others.
  unfoldable pub add_to_groups :
      AgentMetricSummary V
      → List (AgentMetricSummary V × List (AgentMetricSummary V))
      → List (AgentMetricSummary V × List (AgentMetricSummary V))
  add_to_groups s [] = (s, []) ∷ []
  add_to_groups s ((g, rest) ∷ gs) =
      let others = add_to_groups s gs in
      if same_key g s then (s, g ∷ rest) ∷ gs else (g, rest) ∷ others

  -- GROUP BY host, bucket, metric_name
  unfoldable pub group_rows :
      List (AgentMetricSummary V) → List (AgentMetricSummary V × List (AgentMetricSummary V))
  unfolding add_to_groups
  group_rows [] = []
  group_rows (s ∷ rows) = add_to_groups s (group_rows rows)

  abbrev pub set_bucket : (ℕ → ℕ) → AgentMetricSummary V → AgentMetricSummary V
  set_bucket f s = record s { bucket = f s.bucket }

  -- ON CONFLICT(host, bucket, metric_name) DO UPDATE
  unfoldable pub upsert :
      AgentMetricSummary V → List (AgentMetricSummary V) → List (AgentMetricSummary V)
  upsert s [] = s ∷ []
  upsert s (q ∷ table) = let rest = upsert s table in if same_key q s then s ∷ table else q ∷ rest

  unfoldable pub upsert_all :
      List (AgentMetricSummary V) → List (AgentMetricSummary V) → List (AgentMetricSummary V)
  unfolding upsert
  upsert_all [] table = table
  upsert_all (s ∷ rows) table = upsert_all rows (upsert s table)

module _ {V : Type 0} (db : Database V) where
  -- MIN and MAX over the values after the first.
  unfoldable pub least : V → List V → V
  least v [] = v
  least v (w ∷ vs) = let rest = least w vs in if db.leq v rest then v else rest

  unfoldable pub greatest : V → List V → V
  greatest v [] = v
  greatest v (w ∷ vs) = let rest = greatest w vs in if db.leq v rest then rest else v

  unfoldable pub merge : AgentMetricSummary V × List (AgentMetricSummary V) → AgentMetricSummary V
  unfolding least greatest
  merge (s, rest) = record s {
    avg = db.average s.avg (map (λ q. q.avg) rest);
    min = least s.min (map (λ q. q.min) rest);
    max = greatest s.max (map (λ q. q.max) rest);
  }

  unfoldable pub grouped : List (AgentMetricSummary V) → List (AgentMetricSummary V)
  unfolding group_rows merge
  grouped rows = db.group_order (map merge (group_rows rows))

  -- The table has no column `bucket`: GROUP BY takes the name of the result.
  unfoldable pub aggregate_agent_metrics_5min : ℕ → ℕ → MetricTables V → MetricTables V
  unfolding as_summary grouped upsert_all
  aggregate_agent_metrics_5min from to t =
      let rows = map as_summary (keep_if (λ r. in_window from to r.timestamp) t.agent_metrics) in
      record t {
        agent_metrics_5min =
            upsert_all (grouped (map (set_bucket λ b. b / 300 * 300) rows)) t.agent_metrics_5min;
      }

  -- The table has a column `bucket`: GROUP BY takes the column, not the name of the result.
  unfoldable pub aggregate_agent_metrics_15min : ℕ → ℕ → MetricTables V → MetricTables V
  unfolding grouped upsert_all
  aggregate_agent_metrics_15min from to t =
      let rows = keep_if (λ s. in_window from to s.bucket) t.agent_metrics_5min in
      record t {
        agent_metrics_15min =
            upsert_all (map (set_bucket λ b. b / 900 * 900) (grouped rows)) t.agent_metrics_15min;
      }

  unfoldable pub aggregate_agent_metrics_hourly : ℕ → ℕ → MetricTables V → MetricTables V
  unfolding grouped upsert_all
  aggregate_agent_metrics_hourly hour_start hour_end t =
      let rows = keep_if (λ s. in_window hour_start hour_end s.bucket) t.agent_metrics_5min in
      record t {
        agent_metrics_hourly =
            upsert_all (grouped (map (set_bucket λ b. hour_start) rows)) t.agent_metrics_hourly;
      }

  unfoldable pub aggregate_agent_metrics_daily : ℕ → ℕ → MetricTables V → MetricTables V
  unfolding grouped upsert_all
  aggregate_agent_metrics_daily day_start day_end t =
      let rows = keep_if (λ s. in_window day_start day_end s.bucket) t.agent_metrics_hourly in
      record t {
        agent_metrics_daily =
            upsert_all (grouped (map (set_bucket λ b. day_start) rows)) t.agent_metrics_daily;
      }

-- What is documented of the database: the values are ordered, AVG of one value is the value, and a
-- GROUP BY gives each of its rows, and no other, in an order of its own.
pub record DatabaseLaws {V : Type 0} (db : Database V) : Type 0 where
  pub leq_refl : (v : V) → db.leq v v ≡ true
  pub leq_trans : (v w x : V) → db.leq v w ≡ true → db.leq w x ≡ true → db.leq v x ≡ true
  pub leq_total : (v w : V) → db.leq v w ≡ false → db.leq w v ≡ true
  pub average_one : (v : V) → db.average v [] ≡ v
  pub group_order_loses_none :
      (r : AgentMetricSummary V) (rows : List (AgentMetricSummary V))
      → Held r rows
      → Held r (db.group_order rows)
  pub group_order_adds_none :
      (r : AgentMetricSummary V) (rows : List (AgentMetricSummary V))
      → Held r (db.group_order rows)
      → Held r rows
