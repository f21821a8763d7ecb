-- ===== src/Scan.antt =====
-- internal/hub/hub.go: `processScanResult`, which compares a finished scan with the baseline of its
-- target, alerts on what is confirmed and folds that into the baseline.
pub mod Laws
pub mod Accept
pub mod Execute
use whatsupp.Base.{
  ℕ, ◌+◌, String, Bool, true, false, not, ◌&&◌, ◌||◌, List, [], ◌∷◌, ◌++◌, Option, none, some, ltb,
  if◌then◌else◌, map, ℤ, pos, pos_part, leb_ℤ,
}
use whatsupp.Alerting.{Alert, new_port, port_gone}
use whatsupp.Security.{compare_baseline, filter_by_hysteresis, apply_baseline_drift}
use whatsupp.Store.{
  Store, SecurityBaseline, insert_security_scan, upsert_security_baseline, get_security_baseline,
  get_recent_security_scans,
}

pub record SecurityTarget : Type 0 where
  pub host : String
  pub alert_hysteresis : ℤ

-- The store and the alerts posted so far, newest first.
pub record ScanHub : Type 0 where
  pub store : Store
  pub alerts : List Alert

abbrev pub is_empty : List ℕ → Bool
is_empty [] = true
is_empty (p ∷ ps) = false

abbrev pub hysteresis_of : SecurityTarget → ℕ
hysteresis_of target =
    if leb_ℤ target.alert_hysteresis (pos 0) then 1 else pos_part target.alert_hysteresis

-- The drift that is alerted; if the recent scans cannot be read, all of it.
unfoldable pub confirm : SecurityTarget → List ℕ → List ℕ → Store → (List ℕ × List ℕ) × Store
confirm target new_ports gone_ports s =
    let (recent, s') = get_recent_security_scans target.host (hysteresis_of target) s in
    if ltb 1 (hysteresis_of target) && (not (is_empty new_ports) || not (is_empty gone_ports))
    then (elim recent [
      | none ↦ ((new_ports, gone_ports), s')
      | some scans ↦ (
        filter_by_hysteresis new_ports gone_ports (map (λ sc. sc.open_ports) scans)
            (hysteresis_of target),
        s',
      )
    ])
    else ((new_ports, gone_ports), s)

unfoldable pub post_new : String → List ℕ → List Alert → List Alert
post_new host [] alerts = alerts
post_new host (p ∷ ps) alerts = post_new host ps (new_port host p ∷ alerts)

unfoldable pub post_gone : String → List ℕ → List Alert → List Alert
post_gone host [] alerts = alerts
post_gone host (p ∷ ps) alerts = post_gone host ps (port_gone host p ∷ alerts)

-- `range` is the order of Go's loop over a map.
module _ (range : List ℕ → List ℕ) where
  unfoldable pub fold_in : SecurityTarget → List ℕ → List ℕ → List ℕ → ℕ → Store → Store
  fold_in target baseline added gone now s =
      if not (is_empty added) || not (is_empty gone)
      then (upsert_security_baseline target.host (apply_baseline_drift range baseline added gone)
          now s).1
      else s

  unfoldable pub compare_scan :
      SecurityTarget → List ℕ → List ℕ → ℕ → ScanHub → (List ℕ × List ℕ) × ScanHub
  compare_scan target baseline open_ports now h =
      let drift = compare_baseline baseline open_ports in
      let (alerted, s) = confirm target drift.0 drift.1 h.store in
      (
        drift,
        record {
          store = fold_in target baseline alerted.0 alerted.1 now s;
          alerts = post_gone target.host alerted.1 (post_new target.host alerted.0 h.alerts);
        },
      )

  unfoldable pub process_scan_result :
      SecurityTarget → List ℕ → ℕ → ScanHub → (List ℕ × List ℕ) × ScanHub
  unfolding compare_scan
  process_scan_result target open_ports now h =
      let s = (insert_security_scan target.host now open_ports h.store).1 in
      let (baseline, s') = get_security_baseline target.host s in
      elim baseline [
        | none ↦ (([], []), record h { store = s' })
        | some none ↦ (
          ([], []),
          record h { store = (upsert_security_baseline target.host open_ports now s').1 },
        )
        | some (some b) ↦
            compare_scan target b.expected_ports open_ports now (record h { store = s' })
      ]
