-- ===== src/Examples/Network.antt =====
-- internal/checks: a scan of two ports of which one answers, and an HTTP check.
use whatsupp.Base.{
  ℕ, ◌≡◌, ◌↔◌, refl, String, Bool, false, ◌&&◌, List, [], ◌∷◌, none, leb, ◌==◌, if◌then◌else◌, pos,
}
use whatsupp.Security.Sort.{count, Ascending}
use whatsupp.Monitor.{new_monitor_state, record_result}
use whatsupp.Checks.{Outcome, answered, HttpChecker, HttpResponse, timeout_of, check_http}
use whatsupp.Checks.Accepted.{Accepts, check_http_lem}
use whatsupp.Checks.Scanner.{SecurityScanner, ScanEvent, spawn, work, is_reported, scan}
use whatsupp.Checks.Scanner.Results.{scan_in_any_order}

abbrev two_ports : SecurityScanner
two_ports = record { concurrency = 2; port_start = 80; port_end = 81 }

abbrev answers : ℕ → Bool
answers p = p == 81

abbrev schedule : List ScanEvent
schedule =
    spawn ∷ spawn ∷ work 1 ∷ work 0 ∷ work 0 ∷ work 0 ∷ work 0 ∷ work 0 ∷ work 0 ∷ work 0 ∷ []

scan_in_any_order_example :
    Ascending 0 (81 ∷ [])
    × ((p : ℕ) → count p (81 ∷ []) ≡ (if leb 80 p && leb p 81 && answers p then 1 else 0))
    × ((n : ℕ)
        → count n (2 ∷ 1 ∷ []) ≡ (if leb 1 n && leb n 2 && is_reported two_ports n then 1 else 0))
unfolding scan
scan_in_any_order_example = scan_in_any_order two_ports answers schedule (81 ∷ []) (2 ∷ 1 ∷ []) refl

abbrev site : HttpChecker
site = record {
  url = "https://example.org";
  timeout = 5;
  insecure_skip_verify = false;
  accepted_codes = 200 ∷ 204 ∷ [];
}

abbrev get : String → Bool → ℕ → Outcome HttpResponse
get url insecure timeout = answered (record { status_code = 204; cert_days_left = none })

check_http_lem_example :
    ((record_result
        (new_monitor_state "site" (pos 3))
        (check_http (λ n. "HTTP error") site get 1_200 "site")).0.consecutive_failures
      ≡ 0)
    ↔ ((resp : HttpResponse) × (get site.url false (timeout_of 5) ≡ answered resp)
        × Accepts (200 ∷ 204 ∷ []) resp.status_code)
unfolding new_monitor_state
check_http_lem_example =
    check_http_lem (λ n. "HTTP error") site get 1_200 (new_monitor_state "site" (pos 3))
