-- ===== src/Tiers/Retention.antt =====
-- internal/hub/downsampler.go and internal/api/handlers.go: what a round of the downsampler leaves of
-- the answers of GetMonitorResults.
use whatsupp.Base.{
  ℕ, ◌+◌, ◌-◌, ◌*◌, ◌≤◌, ◌<◌, ◌≡◌, refl, ap, Bool, true, false, not, String, List, [], ◌∷◌, arith,
  keep_if, ltb, inl, inr, ◌⊎◌, map,
}
use whatsupp.Store.{Tables, Store, statement}
use whatsupp.Tiers.{
  hour, retain_check_results_raw, select_check_result_tier, aggregate_hourly,
  delete_old_check_results, attempt, run_hourly_aggregation, get_check_results, by_timestamp,
  raw_point, monitor_results, between,
}

-- A filter after one that it implies changes nothing.
keep_if-implied :
    {A : Type 0} (p q : A → Bool)
    → ((a : A) → q a ≡ false → p a ≡ false)
    → (rows : List A) → keep_if p (keep_if q rows) ≡ keep_if p rows
keep_if-implied p q implied [] = refl
keep_if-implied p q implied (a ∷ rows) = ground (arith, implied a, keep_if-implied p q implied rows)

keep_if-excluded :
    {A : Type 0} (p q : A → Bool)
    → ((a : A) → q a ≡ true → p a ≡ false)
    → (rows : List A) → keep_if p (keep_if q rows) ≡ []
keep_if-excluded p q excluded [] = refl
keep_if-excluded p q excluded (a ∷ rows) =
    ground (arith, excluded a, keep_if-excluded p q excluded rows)

-- Whatever fails, the raw rows after a round are those before it, or those that are not too old.
raw_after :
    (now : ℕ) (s : Store)
    → ((run_hourly_aggregation now s).tables.check_results ≡ s.tables.check_results)
      ⊎ ((run_hourly_aggregation now s).tables.check_results
          ≡ (delete_old_check_results (now - retain_check_results_raw) s.tables).check_results)
unfolding run_hourly_aggregation attempt statement aggregate_hourly delete_old_check_results
raw_after now s = ground arith

all_cut :
    (now : ℕ) (s : Store)
    → ((n : ℕ) → s.fails n ≡ false)
    → (run_hourly_aggregation now s).tables.check_results
      ≡ (delete_old_check_results (now - retain_check_results_raw) s.tables).check_results
unfolding run_hourly_aggregation attempt statement aggregate_hourly delete_old_check_results
all_cut now s ok = ground (arith, ok s.calls, ok (s.calls + 1))

short_results :
    (name : String) (from to : ℕ) (t : Tables)
    → to ≤ from + 6 * hour
    → monitor_results name from to t ≡ get_check_results name from to t.check_results
unfolding monitor_results select_check_result_tier
short_results name from to t short = ground arith

-- A round of the hourly aggregation, whatever statements fail in it, changes nothing in the answer
-- for a range of at most six hours that starts no more than twelve hours before the round.
hourly_round_keeps_recent :
    (name : String) (from to now : ℕ) (s : Store)
    → to ≤ from + 6 * hour
    → now ≤ from + retain_check_results_raw
    → monitor_results name from to (run_hourly_aggregation now s).tables
      ≡ monitor_results name from to s.tables
unfolding get_check_results delete_old_check_results
hourly_round_keeps_recent name from to now s short recent =
    let keeps =
      keep_if-implied (λ r. between name from to r.monitor r.timestamp)
        (λ r. not (ltb r.timestamp (now - retain_check_results_raw))) (λ r cut. ground arith)
        s.tables.check_results in
    let same_answer : get_check_results name from to
          (run_hourly_aggregation now s).tables.check_results
        ≡ get_check_results name from to s.tables.check_results =
      elim (raw_after now s) [
        | inl same ↦ ap (get_check_results name from to) same
        | inr cut ↦ rw cut (ap (λ rows. by_timestamp (map raw_point rows)) keeps)
      ] in
    rw
      (
        short_results name from to (run_hourly_aggregation now s).tables short,
        short_results name from to s.tables short,
      )
      same_answer

-- Where no statement fails, a range of at most six hours that ends more than twelve hours before a
-- round has an empty answer after it.
old_short_range_is_empty :
    (name : String) (from to now : ℕ) (s : Store)
    → ((n : ℕ) → s.fails n ≡ false)
    → to ≤ from + 6 * hour
    → to + retain_check_results_raw < now
    → monitor_results name from to (run_hourly_aggregation now s).tables ≡ []
unfolding get_check_results delete_old_check_results
old_short_range_is_empty name from to now s ok short old =
    let cut : (run_hourly_aggregation now s).tables.check_results
        ≡ (delete_old_check_results (now - retain_check_results_raw) s.tables).check_results =
      all_cut now s ok in
    let gone =
      keep_if-excluded (λ r. between name from to r.monitor r.timestamp)
        (λ r. not (ltb r.timestamp (now - retain_check_results_raw))) (λ r left. ground arith)
        s.tables.check_results in
    rw (short_results name from to (run_hourly_aggregation now s).tables short)
      (rw cut (ap (λ rows. by_timestamp (map raw_point rows)) gone))
