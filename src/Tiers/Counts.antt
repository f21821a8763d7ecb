-- ===== src/Tiers/Counts.antt =====
-- internal/store/queries.go: the aggregations keep the counts of each monitor.
use whatsupp.Base.{
  ℕ, suc, ◌+◌, ◌≡◌, refl, ap, ◌∙◌, Bool-cases, inl, inr, ◌&&◌, String, List, [], ◌∷◌, ◌++◌, arith,
  keep_if, map, str_eq, eq_iff, if◌then◌else◌,
}
use whatsupp.Store.{CheckRow, CheckSummary, Tables}
use whatsupp.Tiers.{as_summary, add_to_group, group, in_window, aggregate_hourly, aggregate_daily}

-- How many results of a monitor the rows count as succeeded and as failed.
abbrev pub totals : String → List CheckSummary → ℕ × ℕ
totals m [] = (0, 0)
totals m (s ∷ ss) =
    let (up, down) = totals m ss in
    if str_eq s.monitor m then (s.success_count + up, s.fail_count + down) else (up, down)

totals-add_to_group :
    (m : String) (start : ℕ) (s : CheckSummary) (gs : List CheckSummary)
    → totals m (add_to_group start s gs) ≡ totals m (s ∷ gs)
unfolding add_to_group
totals-add_to_group m start s [] = refl
totals-add_to_group m start s (g ∷ gs) =
    let ih = totals-add_to_group m start s gs in
    elim (Bool-cases (str_eq g.monitor s.monitor)) [
      | inl same ↦ let named = (eq_iff g.monitor s.monitor).0 same in rw named (ground arith)
      | inr other ↦ rw other (ground (arith, ih))
    ]

totals-group :
    (m : String) (start : ℕ) (ss : List CheckSummary) → totals m (group start ss) ≡ totals m ss
unfolding group
totals-group m start [] = refl
totals-group m start (s ∷ ss) =
    ground (arith, totals-add_to_group m start s (group start ss), totals-group m start ss)

totals-append :
    (m : String) (xs ys : List CheckSummary)
    → ((totals m (xs ++ ys)).0 ≡ (totals m xs).0 + (totals m ys).0)
      × ((totals m (xs ++ ys)).1 ≡ (totals m xs).1 + (totals m ys).1)
totals-append m [] ys = (omega arith, omega arith)
totals-append m (x ∷ xs) ys = ground (arith, totals-append m xs ys)

-- How many raw rows of a monitor with a given status the window has.
abbrev pub counted : String → String → ℕ → ℕ → List CheckRow → ℕ
counted m status start end [] = 0
counted m status start end (r ∷ rows) =
    let rest = counted m status start end rows in
    if in_window start end r.timestamp && (str_eq r.monitor m && str_eq r.status status)
    then suc rest
    else rest

totals-rows :
    (m : String) (start end : ℕ) (rows : List CheckRow)
    → totals m (map as_summary (keep_if (λ r. in_window start end r.timestamp) rows))
      ≡ (counted m "up" start end rows, counted m "down" start end rows)
unfolding as_summary
totals-rows m start end [] = refl
totals-rows m start end (r ∷ rows) =
    let ih = totals-rows m start end rows in
    elim (Bool-cases (in_window start end r.timestamp)) [
      | inl inside ↦ rw inside (ground (arith, ih))
      | inr outside ↦ rw outside ih
    ]

-- The hourly aggregation of a window adds to the counts of each monitor the number of its raw rows
-- of the window that are up and down; the daily one adds the counts of its hourly rows.
pub aggregations_conserve :
    (m : String) (start end : ℕ) (t : Tables)
    → ((totals m (aggregate_hourly start end t).check_results_hourly).0
        ≡ (totals m t.check_results_hourly).0 + counted m "up" start end t.check_results)
      × ((totals m (aggregate_hourly start end t).check_results_hourly).1
          ≡ (totals m t.check_results_hourly).1 + counted m "down" start end t.check_results)
      × ((totals m (aggregate_daily start end t).check_results_daily).0
          ≡ (totals m t.check_results_daily).0
            + (totals m (keep_if (λ s. in_window start end s.bucket) t.check_results_hourly)).0)
      × ((totals m (aggregate_daily start end t).check_results_daily).1
          ≡ (totals m t.check_results_daily).1
            + (totals m (keep_if (λ s. in_window start end s.bucket) t.check_results_hourly)).1)
unfolding aggregate_hourly aggregate_daily
aggregations_conserve m start end t =
    let rows = keep_if (λ r. in_window start end r.timestamp) t.check_results in
    let summaries = keep_if (λ s. in_window start end s.bucket) t.check_results_hourly in
    let (hourly_up, hourly_down) =
      totals-append m t.check_results_hourly (group start (map as_summary rows)) in
    let (daily_up, daily_down) = totals-append m t.check_results_daily (group start summaries) in
    let by_hour = totals-group m start (map as_summary rows) in
    let by_day = totals-group m start summaries in
    let raw = totals-rows m start end t.check_results in
    let both = by_hour ∙ raw in
    (
      hourly_up ∙ ap (λ p. (totals m t.check_results_hourly).0 + p.0) both,
      hourly_down ∙ ap (λ p. (totals m t.check_results_hourly).1 + p.1) both,
      daily_up ∙ ap (λ p. (totals m t.check_results_daily).0 + p.0) by_day,
      daily_down ∙ ap (λ p. (totals m t.check_results_daily).1 + p.1) by_day,
    )
