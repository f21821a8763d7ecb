-- ===== src/Scan/Execute.antt =====
-- internal/hub/hub.go: executeSecurityScan, the loop of runSecurityScanSchedule, and ScanSchedules.
-- Whether a port answers, the order in which the goroutines of a scan move, and the readings of the
-- clock are parameters. Marshalling and broadcasting do not fail, and the hub has a WSHub.
pub mod Outcome
use whatsupp.Base.{
  ℕ, String, Bool, true, false, List, [], ◌∷◌, Option, none, some, ◌*◌, length, Map, insert, delete,
}
use whatsupp.Cron.{Calendar, minute}
use whatsupp.Cron.Text.{Codes}
use whatsupp.Cron.Fields.{Parsed, ok, err, next_run}
use whatsupp.Checks.Scanner.{SecurityScanner, ScanEvent, with_defaults, total, scan}
use whatsupp.Scan.{SecurityTarget, ScanHub, process_scan_result}

pub record ScanState : Type 0 where
  pub scanned : ℕ
  pub total_ports : ℕ

-- The messages that tell the browsers of a scan.
pub data ScanMessage : Type 0 where
  scan_start : String → ℕ → ScanMessage
  scan_progress : String → ℕ → ℕ → ScanMessage
  scan_complete : String → ℕ → List ℕ → ℕ → ℕ → ScanMessage
  scan_scheduled : String → ℕ → ScanMessage

-- The tables and alerts, the two maps of the hub, and the messages broadcast, newest first.
pub record ScanBoard : Type 0 where
  pub hub : ScanHub
  pub progress : Map ScanState
  pub next_runs : Map ℕ
  pub messages : List ScanMessage

-- The concurrency stands in the configuration beside the target; no ports are given.
unfoldable pub scanner_of : ℕ → SecurityScanner
scanner_of scan_concurrency = record {
  concurrency = scan_concurrency;
  port_start = 0;
  port_end = 0;
}

-- ProgressFn
unfoldable pub report_progress : String → ℕ → ℕ → ScanBoard → ScanBoard
report_progress host n all b = record b {
  progress = insert b.progress host (record { scanned = n; total_ports = all });
  messages = scan_progress host n all ∷ b.messages;
}

-- The counts are newest first.
unfoldable pub report_all : String → ℕ → List ℕ → ScanBoard → ScanBoard
unfolding report_progress
report_all host all [] b = b
report_all host all (n ∷ ns) b = report_progress host n all (report_all host all ns b)

-- `range` is the order of Go's loop over a map.
module _ (range : List ℕ → List ℕ) where
  -- What follows the return of Scan.
  unfoldable pub complete : SecurityTarget → List ℕ → ℕ → ScanBoard → ScanBoard
  unfolding process_scan_result
  complete target open_ports now b =
      let (drift, hub) = process_scan_result range target open_ports now b.hub in
      record b {
        hub = hub;
        progress = delete b.progress target.host;
        messages =
            scan_complete target.host now open_ports (length drift.0) (length drift.1) ∷ b.messages;
      }

  -- None if the events do not finish the scan.
  unfoldable pub execute_security_scan :
      SecurityTarget → ℕ → (ℕ → Bool) → List ScanEvent → ℕ → ScanBoard → Option ScanBoard
  unfolding scanner_of report_all complete scan
  execute_security_scan target scan_concurrency answers es now b =
      let started = record b { messages = scan_start target.host 65_535 ∷ b.messages } in
      let scanner = scanner_of scan_concurrency in
      elim (scan scanner answers es) [
        | none ↦ none
        | some (open_ports, reports) ↦ some (
            complete target open_ports now
              (report_all target.host (total (with_defaults scanner)) reports started))
      ]

-- The start of a round of the loop: none if the schedule has no next time, which ends the loop.
unfoldable pub schedule_next : Calendar → String → Codes → ℕ → ScanBoard → Option ScanBoard
unfolding next_run
schedule_next cal host schedule now b = elim (next_run cal schedule now) [
  | err e ↦ none
  | ok n ↦ some (record b {
    next_runs = insert b.next_runs host (n * minute);
    messages = scan_scheduled host (n * minute) ∷ b.messages;
  })
]

pub record ScanSchedule : Type 0 where
  pub target : String
  pub schedule : Codes
  pub next_run_at : ℕ
  pub scanning : Bool
  pub scanned : ℕ
  pub total_ports : ℕ

unfoldable pub scan_schedule : ScanBoard → String → Codes → ScanSchedule
scan_schedule b host schedule =
    let next : ℕ = elim (b.next_runs host) [ none ↦ 0 | some n ↦ n ] in
    elim (b.progress host) [
      | none ↦ record {
        target = host;
        schedule = schedule;
        next_run_at = next;
        scanning = false;
        scanned = 0;
        total_ports = 0;
      }
      | some prog ↦ record {
        target = host;
        schedule = schedule;
        next_run_at = next;
        scanning = true;
        scanned = prog.scanned;
        total_ports = prog.total_ports;
      }
    ]

-- The map that the loop over the targets fills, a later one of the same name last.
unfoldable pub scan_schedules :
    ScanBoard → List (String × Codes) → Map ScanSchedule → Map ScanSchedule
unfolding scan_schedule
scan_schedules b [] result = result
scan_schedules b ((host, schedule) ∷ targets) result =
    scan_schedules b targets (insert result host (scan_schedule b host schedule))
