-- ===== src/Scan/Accept.antt =====
-- internal/api/handlers.go: AcceptBaseline, which makes the latest scan of a target its baseline.
use whatsupp.Base.{
  ℕ, ◌+◌, ◌≤◌, ◌≡◌, refl, String, true, false, not, ◌&&◌, List, [], ◌∷◌, Option, none, some, arith,
  ltb, str_eq, eq_iff, if◌then◌else◌, keep_if, take, Option-cases, Bool-cases, inl, inr, Listed,
  Listed-take,
}
use whatsupp.Alerting.{Alert}
use whatsupp.Security.{contains_int, compare_baseline}
use whatsupp.Security.Sort.{sort}
use whatsupp.Store.{
  Store, SecurityScan, SecurityBaseline, by_time, get_all_security_scans, upsert_security_baseline,
}
use whatsupp.Store.Scans.{Listed-by_time}
use whatsupp.Hub.Consistency.{NeverFails}
use whatsupp.Scan.{
  SecurityTarget, ScanHub, hysteresis_of, confirm, compare_scan, process_scan_result, post_new,
  post_gone,
}
use whatsupp.Scan.Laws.{stored, process-compare}

-- The loop over the scans, with the best one so far.
unfoldable pub latest_scan : String → List SecurityScan → Option SecurityScan → Option SecurityScan
latest_scan target [] best = best
latest_scan target (sc ∷ scans) none =
    latest_scan target scans (if str_eq sc.target target then some sc else none)
latest_scan target (sc ∷ scans) (some best) =
    latest_scan target scans
      (if str_eq sc.target target && ltb best.timestamp sc.timestamp then some sc else some best)

pub data Reply : Type 0 where
  accepted query_failed no_scan update_failed : Reply

unfoldable pub update_baseline : String → ℕ → Option SecurityScan → Store → Reply × Store
unfolding upsert_security_baseline
update_baseline target now none s = (no_scan, s)
update_baseline target now (some sc) s =
    let (done, s') = upsert_security_baseline target sc.open_ports now s in
    elim done [ none ↦ (update_failed, s') | some u ↦ (accepted, s') ]

unfoldable pub accept_baseline : String → ℕ → Store → Reply × Store
unfolding get_all_security_scans latest_scan update_baseline
accept_baseline target now s =
    let (found, s') = get_all_security_scans s in
    elim found [
      | none ↦ (query_failed, s')
      | some scans ↦ update_baseline target now (latest_scan target scans none) s'
    ]

-- The scan is one of the list and of the target, and no scan of the list that is of the target is newer.
abbrev NotNewer : String → ℕ → List SecurityScan → Type 0
NotNewer target at [] = Unit
NotNewer target at (sc ∷ scans) =
    (str_eq sc.target target ≡ true → sc.timestamp ≤ at) × NotNewer target at scans

abbrev pub IsLatest : String → SecurityScan → List SecurityScan → Type 0
IsLatest target sc scans =
    (sc.target ≡ target) × NotNewer target sc.timestamp scans × Listed sc scans

-- The best scan so far, or one of the list, if it is of the target.
latest_scan-some :
    (target : String) (scans : List SecurityScan) (best sc : SecurityScan)
    → best.target ≡ target
    → latest_scan target scans (some best) ≡ some sc
    → (best.timestamp ≤ sc.timestamp)
      × (sc.target ≡ target)
      × NotNewer target sc.timestamp scans
      × Listed sc (best ∷ scans)
unfolding latest_scan
latest_scan-some target [] best sc t e =
    (ground (arith, e), ground (arith, e, t), tt, inl (ground (arith, e)))
latest_scan-some target (x ∷ scans) best sc t e =
    elim (Bool-cases (str_eq x.target target && ltb best.timestamp x.timestamp)) [
      | inl newer ↦
          let named : x.target ≡ target = ground (arith, newer, eq_iff x.target target) in
          let (later, same_target, not_newer, listed) =
            latest_scan-some target scans x sc named (rw (newer, latest_scan) at e) in
          (ground (arith, newer, later), same_target, ((λ same. later), not_newer), inr listed)
      | inr older ↦
          let (later, same_target, not_newer, listed) =
            latest_scan-some target scans best sc t (rw (older, latest_scan) at e) in
          (
            later,
            same_target,
            ((λ same. ground (arith, older, same, later)), not_newer),
            elim listed [ inl first ↦ inl first | inr found ↦ inr (inr found) ],
          )
    ]

latest_scan-IsLatest :
    (target : String) (scans : List SecurityScan) (sc : SecurityScan)
    → latest_scan target scans none ≡ some sc
    → IsLatest target sc scans
unfolding latest_scan
latest_scan-IsLatest target [] sc e = absurd (ground (arith, e))
latest_scan-IsLatest target (x ∷ scans) sc e = elim (Bool-cases (str_eq x.target target)) [
  | inl same ↦
      let named : x.target ≡ target = (eq_iff x.target target).0 same in
      let (later, same_target, not_newer, listed) =
        latest_scan-some target scans x sc named (rw (same, latest_scan) at e) in
      (same_target, ((λ same. later), not_newer), listed)
  | inr other ↦
      let (same_target, not_newer, listed) =
        latest_scan-IsLatest target scans sc (rw (other, latest_scan) at e) in
      (same_target, ((λ same. absurd (ground (arith, other, same))), not_newer), inr listed)
]

none_missing :
    (all ports : List ℕ)
    → ((p : ℕ) → contains_int ports p ≡ true → contains_int all p ≡ true)
    → keep_if (λ p. not (contains_int all p)) ports ≡ []
unfolding contains_int
none_missing all [] h = refl
none_missing all (p ∷ ports) h =
    let there : contains_int all p ≡ true = h p (ground arith) in
    rw there (none_missing all ports λ q within. h q (ground (arith, within)))

no_drift : (ports : List ℕ) → compare_baseline ports ports ≡ ([], [])
unfolding compare_baseline sort
no_drift ports = rw (none_missing ports ports (λ p h. h)) refl

quiet_compare :
    (range : List ℕ → List ℕ) (target : SecurityTarget) (ports : List ℕ) (now : ℕ) (h : ScanHub)
    → ((compare_scan range target ports ports now h).0 ≡ ([], []))
      × ((compare_scan range target ports ports now h).1.alerts ≡ h.alerts)
unfolding compare_scan confirm post_new post_gone
quiet_compare range target ports now h =
    let unconfirmed : (ltb 1 (hysteresis_of target) && false) ≡ false = ground arith in
    rw (no_drift ports) (refl, rw unconfirmed refl)

-- If a baseline is accepted, it is the ports of one of the hundred newest stored scans, which is of the
-- target and not older than any other of them that is of the target; a next scan that finds the same ports, while no statement fails,
-- reports no drift and posts no alert.
pub accept_baseline_lem :
    (range : List ℕ → List ℕ) (target : SecurityTarget) (now later : ℕ) (s s' : Store)
    (alerts : List Alert)
    → accept_baseline target.host now s ≡ (accepted, s')
    → NeverFails s
    → (sc : SecurityScan) × IsLatest target.host sc (take 100 (by_time s.tables.security_scans))
      × Listed sc s.tables.security_scans
      × (s'.tables.security_baselines target.host
          ≡ some (record { expected_ports = sc.open_ports; updated_at = now }))
      × ((process_scan_result range target sc.open_ports later
            (record { store = s'; alerts = alerts })).0
          ≡ ([], []))
      × ((process_scan_result range target sc.open_ports later
            (record { store = s'; alerts = alerts })).1.alerts
          ≡ alerts)
unfolding accept_baseline update_baseline get_all_security_scans upsert_security_baseline
accept_baseline_lem range target now later s s' alerts e ok =
    let scans = take 100 (by_time s.tables.security_scans) in
    elim (Option-cases (latest_scan target.host scans none)) [
      | inl missing ↦ absurd (ground (arith, e, missing, ok s.calls))
      | inr (sc, found) ↦
          let latest = latest_scan-IsLatest target.host scans sc found in
          let b : SecurityBaseline = record { expected_ports = sc.open_ports; updated_at = now } in
          let h : ScanHub = record { store = s'; alerts = alerts } in
          let fails : s'.fails ≡ s.fails = ground (arith, e, found, ok s.calls, ok (s.calls + 1)) in
          let ok' : NeverFails s' = λ n. rw fails (ok n) in
          let held : s'.tables.security_baselines target.host ≡ some b =
            ground
              (arith, e, found, ok s.calls, ok (s.calls + 1), eq_iff target.host target.host) in
          let compared = process-compare range target sc.open_ports later h b ok' held in
          let quiet =
            quiet_compare range target sc.open_ports later
              (record h { store = stored target sc.open_ports later s' }) in
          (
            sc,
            latest,
            Listed-by_time sc s.tables.security_scans
                (Listed-take sc 100 (by_time s.tables.security_scans) latest.2),
            held,
            rw compared quiet.0,
            rw compared quiet.1,
          )
    ]
