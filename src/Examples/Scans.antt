-- ===== src/Examples/Scans.antt =====
-- internal/hub/hub.go: the first scan of a host on which port 22 answers.
use whatsupp.Base.{
  ℕ, ◌≤◌, ◌≡◌, refl, String, Bool, false, ◌==◌, List, [], ◌∷◌, ◌++◌, some, length, map, All,
  empty_map, delete, pos,
}
use whatsupp.Checks.Scanner.{ScanEvent, with_defaults, total, scan}
use whatsupp.Checks.Scanner.Ending.{scan_ends}
use whatsupp.Scan.{SecurityTarget, process_scan_result}
use whatsupp.Scan.Execute.{
  ScanBoard, scan_start, scan_progress, scan_complete, scanner_of, report_all, complete,
  execute_security_scan,
}
use whatsupp.Scan.Execute.Outcome.{answering, execute_in_any_order}

abbrev nas : SecurityTarget
nas = record { host = "nas"; alert_hysteresis = pos 2 }

abbrev only_ssh : ℕ → Bool
only_ssh p = p == 22

abbrev in_place : List ℕ → List ℕ
in_place set = set

abbrev board : ScanBoard
board = record {
  hub = record {
    store = record {
      tables = record {
        check_results = [];
        check_results_hourly = [];
        check_results_daily = [];
        incidents = [];
        security_scans = [];
        security_baselines = empty_map;
      };
      fails = λ n. false;
      calls = 0;
    };
    alerts = [];
  };
  progress = empty_map;
  next_runs = empty_map;
  messages = [];
}

-- Events that finish the scan, and what it gives.
abbrev ending :
    (es : List ScanEvent) × (r : List ℕ × List ℕ) × (scan (scanner_of 100) only_ssh es ≡ some r)
ending = (scan_ends (scanner_of 100) only_ssh []).1

abbrev finished : ScanBoard
finished = complete in_place nas ending.1.0 50 (
    report_all "nas" (total (with_defaults (scanner_of 100))) ending.1.1
      (record board { messages = scan_start "nas" 65_535 ∷ [] }))

executed : execute_security_scan in_place nas 100 only_ssh ending.0 50 board ≡ some finished
unfolding execute_security_scan
executed = rw (ending.2, execute_security_scan) refl

execute_in_any_order_example :
    let found = answering only_ssh 65_535 1 in
    let result = process_scan_result in_place nas found 50 board.hub in
    (finished.hub ≡ result.1)
    × ((j : String) → finished.progress j ≡ delete board.progress "nas" j)
    × (finished.next_runs ≡ empty_map)
    × ((reports : List ℕ) × All (λ n. n ≤ 65_535) reports
        × (finished.messages
            ≡ scan_complete "nas" 50 found (length result.0.0) (length result.0.1)
              ∷ (map (λ n. scan_progress "nas" n 65_535) reports
                  ++ (scan_start "nas" 65_535 ∷ []))))
execute_in_any_order_example =
    execute_in_any_order in_place nas 100 only_ssh ending.0 50 board finished executed
