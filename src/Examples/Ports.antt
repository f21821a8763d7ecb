-- ===== src/Examples/Ports.antt =====
-- internal/checks/security.go, internal/hub/hub.go: a host that opens port 8080 and closes port 80.
use whatsupp.Base.{
  ℕ, ◌≡◌, refl, not, ◌&&◌, false, List, [], ◌∷◌, some, arith, take, insert, empty_map, Listed, pos,
}
use whatsupp.Security.{contains_int, compare_baseline}
use whatsupp.Security.Sort.{sort}
use whatsupp.Security.Drift.{Reorders, Among}
use whatsupp.Store.{SecurityBaseline}
use whatsupp.Scan.{SecurityTarget, ScanHub, confirm, post_new, post_gone, process_scan_result}
use whatsupp.Store.{SecurityScan, by_time, get_all_security_scans, upsert_security_baseline}
use whatsupp.Scan.Accept.{
  accept_baseline, update_baseline, latest_scan, accepted, IsLatest, accept_baseline_lem,
}
use whatsupp.Scan.Laws.{stored, confirmed_alerts_once}

abbrev before : List ℕ
before = 22 ∷ 80 ∷ 443 ∷ []

abbrev now : List ℕ
now = 8080 ∷ 443 ∷ 22 ∷ []

abbrev scans : List (List ℕ)
scans = now ∷ (22 ∷ 443 ∷ 8080 ∷ []) ∷ before ∷ []

abbrev in_place : List ℕ → List ℕ
in_place set = set

abbrev swapped : List ℕ → List ℕ
swapped (a ∷ b ∷ set) = b ∷ a ∷ set
swapped set = set

in_place-Reorders : Reorders in_place
in_place-Reorders a set = refl

swapped-Reorders : Reorders swapped
swapped-Reorders a [] = refl
swapped-Reorders a (x ∷ []) = refl
swapped-Reorders a (x ∷ y ∷ set) = ground arith

opened : Among (8080 ∷ []) (compare_baseline before now).0
unfolding compare_baseline contains_int sort
opened p h = h

none_closed : Among [] (compare_baseline before now).1
unfolding contains_int
none_closed p h = ground arith

abbrev target : SecurityTarget
target = record { host = "nas"; alert_hysteresis = pos 2 }

abbrev baseline : SecurityBaseline
baseline = record { expected_ports = before; updated_at = 5 }

abbrev new_hub : ScanHub
new_hub = record {
  store = record {
    tables = record {
      check_results = [];
      check_results_hourly = [];
      check_results_daily = [];
      incidents = [];
      security_scans = [];
      security_baselines = empty_map;
    };
    fails = λ n. false;
    calls = 0;
  };
  alerts = [];
}

-- The same scan was seen at time 8.
abbrev old_hub : ScanHub
old_hub = record {
  store = record {
    tables = record {
      check_results = [];
      check_results_hourly = [];
      check_results_daily = [];
      incidents = [];
      security_scans = record { target = "nas"; timestamp = 8; open_ports = now } ∷ [];
      security_baselines = insert empty_map "nas" baseline;
    };
    fails = λ n. false;
    calls = 0;
  };
  alerts = [];
}

confirmed_alerts_once_example :
    (let drift = compare_baseline before now in
      let alerted = (confirm target drift.0 drift.1 (stored target now 9 old_hub.store)).0 in
      let (reported, after) = process_scan_result swapped target now 9 old_hub in
      (reported ≡ drift)
      × (after.alerts ≡ post_gone "nas" alerted.1 (post_new "nas" alerted.0 []))
      × (b' : SecurityBaseline) × (after.store.tables.security_baselines "nas" ≡ some b')
      × ((p : ℕ)
          → let left = compare_baseline b'.expected_ports now in
            (contains_int left.0 p ≡ (contains_int drift.0 p && not (contains_int alerted.0 p)))
            × (contains_int left.1 p ≡ (contains_int drift.1 p && not (contains_int alerted.1 p)))))
confirmed_alerts_once_example =
    confirmed_alerts_once swapped target now 9 old_hub baseline swapped-Reorders (λ n. refl) refl

accepts :
    accept_baseline "nas" 20 old_hub.store ≡ (accepted, (accept_baseline "nas" 20 old_hub.store).1)
unfolding accept_baseline update_baseline latest_scan get_all_security_scans by_time
    upsert_security_baseline
accepts = refl

accept_baseline_lem_example :
    (let s' = (accept_baseline "nas" 20 old_hub.store).1 in
      (sc : SecurityScan) × IsLatest "nas" sc
        (take 100 (by_time old_hub.store.tables.security_scans))
      × Listed sc old_hub.store.tables.security_scans
      × (s'.tables.security_baselines "nas"
          ≡ some (record { expected_ports = sc.open_ports; updated_at = 20 }))
      × ((process_scan_result in_place target sc.open_ports 30
            (record { store = s'; alerts = [] })).0
          ≡ ([], []))
      × ((process_scan_result in_place target sc.open_ports 30
            (record { store = s'; alerts = [] })).1.alerts
          ≡ []))
accept_baseline_lem_example =
    accept_baseline_lem in_place target 20 30 old_hub.store
      (accept_baseline "nas" 20 old_hub.store).1 [] accepts (λ n. refl)
