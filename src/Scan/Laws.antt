-- ===== src/Scan/Laws.antt =====
-- internal/hub/hub.go: what a processed scan leaves behind.
use whatsupp.Base.{
  ℕ, ◌+◌, ◌≡◌, refl, false, not, ◌&&◌, List, [], ◌∷◌, none, some, arith, str_eq, eq_iff,
  if◌then◌else◌, map, take, keep_if,
}
use whatsupp.Store.{
  Store, SecurityBaseline, insert_security_scan, upsert_security_baseline, get_security_baseline,
  get_recent_security_scans, by_time,
}
use whatsupp.Security.{contains_int, compare_baseline, filter_by_hysteresis, apply_baseline_drift}
use whatsupp.Security.Membership.{filter_by_hysteresis-contains}
use whatsupp.Security.Drift.{Reorders, Among, alerts_once}
use whatsupp.Scan.{
  SecurityTarget, ScanHub, is_empty, hysteresis_of, confirm, post_new, post_gone, fold_in,
  compare_scan, process_scan_result,
}

abbrev pub NeverFails : Store → Type 0
NeverFails s = (n : ℕ) → s.fails n ≡ false

-- The first scan of a target becomes its baseline, and nothing is alerted.
pub first_scan_sets_baseline :
    (range : List ℕ → List ℕ) (target : SecurityTarget) (ports : List ℕ) (now : ℕ) (h : ScanHub)
    → NeverFails h.store
    → h.store.tables.security_baselines target.host ≡ none
    → let after = (process_scan_result range target ports now h).1 in
      (after.alerts ≡ h.alerts)
      × (after.store.tables.security_baselines target.host
          ≡ some (record { expected_ports = ports; updated_at = now }))
unfolding process_scan_result insert_security_scan get_security_baseline upsert_security_baseline
first_scan_sets_baseline range target ports now h ok e = ground (
  arith,
  ok h.store.calls,
  ok (h.store.calls + 1),
  ok (h.store.calls + 1 + 1),
  eq_iff target.host target.host,
)

filtered-Among :
    (new_ports gone_ports : List ℕ) (scans : List (List ℕ)) (hysteresis : ℕ)
    → Among (filter_by_hysteresis new_ports gone_ports scans hysteresis).0 new_ports
      × Among (filter_by_hysteresis new_ports gone_ports scans hysteresis).1 gone_ports
filtered-Among new_ports gone_ports scans hysteresis = (
  λ p h. ground (arith, filter_by_hysteresis-contains new_ports gone_ports scans hysteresis p),
  λ p h. ground (arith, filter_by_hysteresis-contains new_ports gone_ports scans hysteresis p),
)

confirm-Among :
    (target : SecurityTarget) (new_ports gone_ports : List ℕ) (s : Store)
    → Among (confirm target new_ports gone_ports s).0.0 new_ports
      × Among (confirm target new_ports gone_ports s).0.1 gone_ports
unfolding confirm get_recent_security_scans
confirm-Among target new_ports gone_ports s =
    let rows = by_time (keep_if (λ r. str_eq r.target target.host) s.tables.security_scans) in
    let scans = map (λ sc. sc.open_ports) (take (hysteresis_of target) rows) in
    let filtered = filtered-Among new_ports gone_ports scans (hysteresis_of target) in
    (λ p h. ground (arith, filtered.0 p), λ p h. ground (arith, filtered.1 p))

confirm-store :
    (target : SecurityTarget) (new_ports gone_ports : List ℕ) (s : Store)
    → ((confirm target new_ports gone_ports s).1.tables ≡ s.tables)
      × ((confirm target new_ports gone_ports s).1.fails ≡ s.fails)
unfolding confirm get_recent_security_scans
confirm-store target new_ports gone_ports s = ground arith

fold_in_baseline :
    (range : List ℕ → List ℕ) (target : SecurityTarget) (b : SecurityBaseline) (added gone : List ℕ)
    (now : ℕ) (s : Store)
    → NeverFails s
    → s.tables.security_baselines target.host ≡ some b
    → (fold_in range target b.expected_ports added gone now s).tables.security_baselines target.host
      ≡ some (
          if is_empty added && is_empty gone then b else record {
            expected_ports = apply_baseline_drift range b.expected_ports added gone;
            updated_at = now;
          })
unfolding fold_in upsert_security_baseline
fold_in_baseline range target b added gone now s ok e =
    ground (arith, ok s.calls, eq_iff target.host target.host)

-- The store when processScanResult compares: the scan is stored and the baseline read.
abbrev pub stored : SecurityTarget → List ℕ → ℕ → Store → Store
stored target ports now s =
    (get_security_baseline target.host (insert_security_scan target.host now ports s).1).1

stored_lem :
    (target : SecurityTarget) (ports : List ℕ) (now : ℕ) (s : Store)
    → ((stored target ports now s).tables.security_baselines ≡ s.tables.security_baselines)
      × ((stored target ports now s).fails ≡ s.fails)
unfolding insert_security_scan get_security_baseline
stored_lem target ports now s = ground arith

pub process-compare :
    (range : List ℕ → List ℕ) (target : SecurityTarget) (ports : List ℕ) (now : ℕ) (h : ScanHub)
    (b : SecurityBaseline)
    → NeverFails h.store
    → h.store.tables.security_baselines target.host ≡ some b
    → process_scan_result range target ports now h
      ≡ compare_scan range target b.expected_ports ports now
          (record h { store = stored target ports now h.store })
unfolding process_scan_result insert_security_scan get_security_baseline
process-compare range target ports now h b ok e =
    ground (arith, ok h.store.calls, ok (h.store.calls + 1))

-- The baseline that `fold_in` leaves.
abbrev pub folded : (List ℕ → List ℕ) → SecurityBaseline → List ℕ × List ℕ → ℕ → SecurityBaseline
folded range b alerted now = if is_empty alerted.0 && is_empty alerted.1 then b else record {
  expected_ports = apply_baseline_drift range b.expected_ports alerted.0 alerted.1;
  updated_at = now;
}

folded_drift :
    (range : List ℕ → List ℕ) (b : SecurityBaseline) (alerted : List ℕ × List ℕ) (now : ℕ)
    (ports : List ℕ) (p : ℕ)
    → Reorders range
    → Among alerted.0 (compare_baseline b.expected_ports ports).0
    → Among alerted.1 (compare_baseline b.expected_ports ports).1
    → let drift = compare_baseline b.expected_ports ports in
      let left = compare_baseline (folded range b alerted now).expected_ports ports in
      (contains_int left.0 p ≡ (contains_int drift.0 p && not (contains_int alerted.0 p)))
      × (contains_int left.1 p ≡ (contains_int drift.1 p && not (contains_int alerted.1 p)))
folded_drift range b ([], []) now ports p r a g = unfold contains_int in ground arith
folded_drift range b (x ∷ xs, gone) now ports p r a g =
    alerts_once range b.expected_ports ports (x ∷ xs) gone p r a g
folded_drift range b ([], y ∷ ys) now ports p r a g =
    alerts_once range b.expected_ports ports [] (y ∷ ys) p r a g

-- With a baseline and a store whose statements do not fail: the reported drift is the comparison
-- with the baseline, the alerts posted are the confirmed part of it, and the new baseline drifts
-- from the same scan by exactly the ports that were not alerted, so each change alerts once.
pub confirmed_alerts_once :
    (range : List ℕ → List ℕ) (target : SecurityTarget) (ports : List ℕ) (now : ℕ) (h : ScanHub)
    (b : SecurityBaseline)
    → Reorders range
    → NeverFails h.store
    → h.store.tables.security_baselines target.host ≡ some b
    → let drift = compare_baseline b.expected_ports ports in
      let alerted = (confirm target drift.0 drift.1 (stored target ports now h.store)).0 in
      let (reported, after) = process_scan_result range target ports now h in
      (reported ≡ drift)
      × (after.alerts ≡ post_gone target.host alerted.1 (post_new target.host alerted.0 h.alerts))
      × (b' : SecurityBaseline) × (after.store.tables.security_baselines target.host ≡ some b')
      × ((p : ℕ)
          → let left = compare_baseline b'.expected_ports ports in
            (contains_int left.0 p ≡ (contains_int drift.0 p && not (contains_int alerted.0 p)))
            × (contains_int left.1 p ≡ (contains_int drift.1 p && not (contains_int alerted.1 p))))
confirmed_alerts_once range target ports now h b r ok e =
    let drift = compare_baseline b.expected_ports ports in
    let s = stored target ports now h.store in
    let (alerted, s') = confirm target drift.0 drift.1 s in
    let among = confirm-Among target drift.0 drift.1 s in
    let kept = confirm-store target drift.0 drift.1 s in
    let was = stored_lem target ports now h.store in
    let ok' : NeverFails s' = λ n. rw (kept.1, was.1) (ok n) in
    let e' : s'.tables.security_baselines target.host ≡ some b = rw (kept.0, was.0) e in
    rw (process-compare range target ports now h b ok e) (
      unfold compare_scan in
      (
        refl,
        refl,
        folded range b alerted now,
        fold_in_baseline range target b alerted.0 alerted.1 now s' ok' e',
        λ p. folded_drift range b alerted now ports p r among.0 among.1,
      ))
