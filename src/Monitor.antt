-- ===== src/Monitor.antt =====
-- internal/hub/monitor.go: the UP/DOWN state machine of one monitor. The counters are Go ints that
-- never reach their bound; `UptimePct`, a float, is left out.
pub mod History
use whatsupp.Base.{
  ℕ, ℤ, ◌+◌, String, Bool, Option, true, false, ◌&&◌, List, [], ◌∷◌, pos, leb_ℤ, str_eq,
  if◌then◌else◌,
}

-- The metadata text of a check: empty, or a JSON object that may hold `cert_days_left`.
pub data Metadata : Type 0 where
  no_metadata : Metadata
  json : Option ℤ → Metadata

-- checks.Result. The latency is a whole number of microseconds, which the code divides by 1000.
pub record CheckResult : Type 0 where
  pub monitor : String
  pub status : String
  pub latency_us : ℕ
  pub metadata : Metadata
  pub error : String

pub data MonitorStatus : Type 0 where
  up down : MonitorStatus

pub data Transition : Type 0 where
  stay to_down to_up : Transition

pub record MonitorState : Type 0 where
  pub name : String
  pub status : MonitorStatus
  pub failure_threshold : ℤ
  pub consecutive_failures : ℕ
  pub last_error : String
  pub total_checks : ℕ
  pub total_up : ℕ

unfoldable pub new_monitor_state : String → ℤ → MonitorState
new_monitor_state name threshold = record {
  name = name;
  status = up;
  failure_threshold = threshold;
  consecutive_failures = 0;
  last_error = "";
  total_checks = 0;
  total_up = 0;
}

-- The code's `ms.Status == StatusDown` and `ms.Status == StatusUp`.
abbrev pub is_down : MonitorStatus → Bool
is_down up = false
is_down down = true

abbrev pub is_up : MonitorStatus → Bool
is_up up = true
is_up down = false

abbrev pub succeeded : CheckResult → Bool
succeeded r = str_eq r.status "up"

unfoldable pub record_success : MonitorState → MonitorState × Transition
record_success ms =
    let cleared = record ms { consecutive_failures = 0; last_error = "" } in
    if is_down ms.status then (record cleared { status = up }, to_up) else (cleared, stay)

unfoldable pub record_failure : MonitorState → String → MonitorState × Transition
record_failure ms error =
    let failed = record ms {
      consecutive_failures = ms.consecutive_failures + 1;
      last_error = error;
    } in
    if is_up ms.status && leb_ℤ ms.failure_threshold (pos (ms.consecutive_failures + 1))
    then (record failed { status = down }, to_down)
    else (failed, stay)

unfoldable pub record_result : MonitorState → CheckResult → MonitorState × Transition
unfolding record_success record_failure
record_result ms result =
    let counted = record ms { total_checks = ms.total_checks + 1 } in
    if succeeded result
    then record_success (record counted { total_up = ms.total_up + 1 })
    else record_failure counted result.error

-- The results of one monitor, in the order in which they are processed.
unfoldable pub record_all : MonitorState → List CheckResult → MonitorState × List Transition
record_all ms [] = (ms, [])
record_all ms (r ∷ rs) =
    let (ms', t) = record_result ms r in let (last, ts) = record_all ms' rs in (last, t ∷ ts)
