-- ===== src/Tiers.antt =====
-- The storage tiers of check results: the aggregation and the queries of internal/store/queries.go,
-- the rounds of internal/hub/downsampler.go and the choice of a tier in internal/api/handlers.go.
-- Times are seconds of the Unix epoch. Latencies are left out of the aggregated rows.
pub mod Counts
pub mod Retention
use whatsupp.Base.{
  ℕ, ◌+◌, ◌-◌, ◌*◌, ◌/◌, String, Bool, true, false, not, ◌&&◌, List, [], ◌∷◌, ◌++◌, Option, ltb,
  leb, ◌==◌, str_eq, if◌then◌else◌, keep_if, map,
}
use whatsupp.Store.{CheckRow, CheckSummary, Tables, Store, Db, statement}

abbrev pub hour : ℕ
hour = 3_600

abbrev pub day : ℕ
day = 24 * hour

abbrev pub retain_check_results_raw : ℕ
retain_check_results_raw = 12 * hour

abbrev pub retain_hourly : ℕ
retain_hourly = 90 * day

pub data Tier : Type 0 where
  raw hourly daily : Tier

unfoldable pub select_check_result_tier : ℕ → Tier
select_check_result_tier duration =
    if leb duration (6 * hour) then raw else if leb duration (7 * day) then hourly else daily

-- One raw row as a summary of itself.
unfoldable pub as_summary : CheckRow → CheckSummary
as_summary r = record {
  monitor = r.monitor;
  bucket = r.timestamp;
  success_count = if str_eq r.status "up" then 1 else 0;
  fail_count = if str_eq r.status "down" then 1 else 0;
}

-- GROUP BY monitor with the sums of the counts, each group under the given bucket.
unfoldable pub add_to_group : ℕ → CheckSummary → List CheckSummary → List CheckSummary
add_to_group start s [] = record s { bucket = start } ∷ []
add_to_group start s (g ∷ gs) =
    let rest = add_to_group start s gs in
    if str_eq g.monitor s.monitor
    then record g {
      success_count = g.success_count + s.success_count;
      fail_count = g.fail_count + s.fail_count;
    }
      ∷ gs
    else g ∷ rest

unfoldable pub group : ℕ → List CheckSummary → List CheckSummary
unfolding add_to_group
group start [] = []
group start (s ∷ ss) = add_to_group start s (group start ss)

abbrev pub in_window : ℕ → ℕ → ℕ → Bool
in_window start end t = leb start t && ltb t end

unfoldable pub aggregate_hourly : ℕ → ℕ → Tables → Tables
unfolding group as_summary
aggregate_hourly start end t =
    let rows = keep_if (λ r. in_window start end r.timestamp) t.check_results in
    record t { check_results_hourly = t.check_results_hourly ++ group start (map as_summary rows) }

unfoldable pub aggregate_daily : ℕ → ℕ → Tables → Tables
unfolding group
aggregate_daily start end t =
    let rows = keep_if (λ s. in_window start end s.bucket) t.check_results_hourly in
    record t { check_results_daily = t.check_results_daily ++ group start rows }

unfoldable pub delete_old_check_results : ℕ → Tables → Tables
delete_old_check_results cutoff t = record t {
  check_results = keep_if (λ r. not (ltb r.timestamp cutoff)) t.check_results;
}

unfoldable pub delete_old_hourly : ℕ → Tables → Tables
delete_old_hourly cutoff t = record t {
  check_results_hourly = keep_if (λ s. not (ltb s.bucket cutoff)) t.check_results_hourly;
}

-- A statement whose error is only logged.
unfoldable pub attempt : (Tables → Tables) → Store → Store
unfolding statement
attempt f s = (statement {A = Unit {0}} (λ t. (tt, f t)) s).1

-- The part of runHourlyAggregation for check results.
unfoldable pub run_hourly_aggregation : ℕ → Store → Store
unfolding aggregate_hourly delete_old_check_results attempt
run_hourly_aggregation now s =
    let hour_end = (now / hour) * hour in
    attempt (delete_old_check_results (now - retain_check_results_raw))
      (attempt (aggregate_hourly (hour_end - hour) hour_end) s)

-- The part of runDailyAggregation for check results; the day's bounds come from the time zone.
unfoldable pub run_daily_aggregation : ℕ → ℕ → ℕ → Store → Store
unfolding aggregate_daily delete_old_hourly attempt
run_daily_aggregation day_start day_end now s =
    attempt (delete_old_hourly (now - retain_hourly))
      (attempt (aggregate_daily day_start day_end) s)

-- The JSON object that the handler writes for a row.
pub record Point : Type 0 where
  pub timestamp : ℕ
  pub status : String
  pub success_count : ℕ
  pub fail_count : ℕ

-- ORDER BY timestamp.
unfoldable pub insert_by_time : Point → List Point → List Point
insert_by_time p [] = p ∷ []
insert_by_time p (q ∷ qs) =
    let rest = insert_by_time p qs in if ltb q.timestamp p.timestamp then q ∷ rest else p ∷ q ∷ qs

unfoldable pub by_timestamp : List Point → List Point
unfolding insert_by_time
by_timestamp [] = []
by_timestamp (p ∷ ps) = insert_by_time p (by_timestamp ps)

abbrev pub between : String → ℕ → ℕ → String → ℕ → Bool
between name from to m t = str_eq m name && (leb from t && leb t to)

unfoldable pub raw_point : CheckRow → Point
raw_point r = record {
  timestamp = r.timestamp;
  status = r.status;
  success_count = 0;
  fail_count = 0;
}

unfoldable pub get_check_results : String → ℕ → ℕ → List CheckRow → List Point
unfolding by_timestamp raw_point
get_check_results name from to rows =
    by_timestamp (map raw_point (keep_if (λ r. between name from to r.monitor r.timestamp) rows))

unfoldable pub flatten_one : CheckSummary → Point
flatten_one s = record {
  timestamp = s.bucket;
  status = if ltb 0 s.fail_count && (s.success_count == 0) then "down" else "up";
  success_count = s.success_count;
  fail_count = s.fail_count;
}

unfoldable pub flatten_check_summaries : String → ℕ → ℕ → List CheckSummary → List Point
unfolding by_timestamp flatten_one
flatten_check_summaries name from to ss =
    by_timestamp (map flatten_one (keep_if (λ s. between name from to s.monitor s.bucket) ss))

-- The rows that GetMonitorResults answers with.
unfoldable pub monitor_results : String → ℕ → ℕ → Tables → List Point
unfolding get_check_results flatten_check_summaries select_check_result_tier
monitor_results name from to t = elim (select_check_result_tier (to - from)) [
  | raw ↦ get_check_results name from to t.check_results
  | hourly ↦ flatten_check_summaries name from to t.check_results_hourly
  | daily ↦ flatten_check_summaries name from to t.check_results_daily
]
