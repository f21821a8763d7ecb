-- ===== src/Hub.antt =====
-- internal/hub/hub.go: processing of check results, resolving of stale incidents, durations. The
-- mutex makes each call a step; posting an alert and a broadcast never block the hub.
pub mod Consistency
pub mod Closing
pub mod Reload
pub mod Restart
pub mod Silence
pub mod Status
pub mod Duration
pub mod Failures
use whatsupp.Base.{
  ℕ, ℤ, ◌+◌, ◌-◌, ◌*◌, ◌/◌, ◌%◌, String, Bool, true, false, not, ◌||◌, List, [], ◌∷◌, Option, none,
  some, ltb, eq_int, if◌then◌else◌, Map, insert,
}
use whatsupp.Monitor.{
  Metadata, no_metadata, json, CheckResult, MonitorState, Transition, stay, to_down, to_up, is_up,
  record_result,
}
use whatsupp.Alerting.{
  Cause, check_error, failures_in_row, DurationText, unknown, seconds, minus_seconds, minutes,
  hours, Alert, NtfyClient, send_down, send_recovery, send_ssl_expiry,
}
use whatsupp.Store.{
  Incident, Store, insert_check_result, resolve_incident, get_all_open_incidents, statement,
}
use whatsupp.Incidents.{handle_transition}

-- The message of a processed check.
pub record WsMessage : Type 0 where
  pub monitor : String
  pub status : String
  pub latency_us : ℕ
  pub timestamp : ℕ

-- `alerts` and `broadcasts` are what the hub has posted and broadcast, newest first.
pub record Hub : Type 0 where
  pub store : Store
  pub alerter : NtfyClient
  pub monitor_states : Map MonitorState
  pub last_results : Map CheckResult
  pub last_check_at : Map ℕ
  pub ssl_expiry_days : List ℤ
  pub alerts : List Alert
  pub broadcasts : List WsMessage

-- The readings of the clock during one call: two in Unix seconds, one in nanoseconds.
pub record Times : Type 0 where
  pub received : ℕ
  pub checked : ℕ
  pub alerted : ℕ

unfoldable pub format_duration : ℕ → DurationText
format_duration d =
    let secs = d / 1_000_000_000 in
    if ltb d 60_000_000_000
    then seconds secs
    else if ltb d 3_600_000_000_000
    then minutes (secs / 60) (secs % 60)
    else hours (secs / 3600) (secs / 60 % 60)

-- The time between two Unix times; a clock that was set back gives a negative duration.
unfoldable pub duration_between : ℕ → ℕ → DurationText
unfolding format_duration
duration_between started resolved =
    if ltb resolved started
    then minus_seconds (started - resolved)
    else format_duration ((resolved - started) * 1_000_000_000)

-- `inc` is none also where the incident handling failed.
unfoldable pub down_duration : Option (Option Incident) → DurationText
unfolding duration_between
down_duration (some (some inc)) = elim inc.resolved_at [
  | none ↦ unknown
  | some at ↦ duration_between inc.started_at at
]
down_duration _ = unknown

abbrev pub post : Option Alert → List Alert → List Alert
post none alerts = alerts
post (some a) alerts = a ∷ alerts

unfoldable pub alert_transition :
    Times → CheckResult → ℤ → Transition → Option (Option Incident) → Hub → Hub
unfolding down_duration
alert_transition times result threshold to_down inc h =
    let (alerter, posted) =
      send_down h.alerter times.alerted result.monitor (failures_in_row result.error threshold) in
    record h { alerter = alerter; alerts = post posted h.alerts }
alert_transition times result threshold to_up inc h =
    let (alerter, posted) = send_recovery h.alerter result.monitor (down_duration inc) in
    record h { alerter = alerter; alerts = post posted h.alerts }
alert_transition times result threshold stay inc h = h

abbrev pub mem_int : List ℤ → ℤ → Bool
mem_int [] d = false
mem_int (t ∷ ts) d = eq_int d t || mem_int ts d

unfoldable pub check_ssl_expiry : CheckResult → Hub → Hub
check_ssl_expiry result h = elim result.metadata [
  | no_metadata ↦ h
  | json none ↦ h
  | json (some days_left) ↦
      if mem_int h.ssl_expiry_days days_left
      then record h { alerts = post (send_ssl_expiry h.alerter result.monitor days_left) h.alerts }
      else h
]

unfoldable pub broadcast_result : Times → CheckResult → Hub → Hub
broadcast_result times result h =
    let message : WsMessage = record {
      monitor = result.monitor;
      status = result.status;
      latency_us = result.latency_us;
      timestamp = times.received;
    } in
    record h { broadcasts = message ∷ h.broadcasts }

-- The part of processResult for a monitor that the hub knows.
unfoldable pub process_known : Times → CheckResult → MonitorState → Hub → Hub
unfolding alert_transition check_ssl_expiry broadcast_result
process_known times result ms h =
    let (ms', transition) = record_result ms result in
    let (inc, store) =
      handle_transition result.monitor transition times.received (check_error result.error)
        h.store in
    let h' = record h {
      store = store;
      monitor_states = insert h.monitor_states result.monitor ms';
      last_results = insert h.last_results result.monitor result;
      last_check_at = insert h.last_check_at result.monitor times.checked;
    } in
    broadcast_result times result (
      check_ssl_expiry result
        (alert_transition times result ms'.failure_threshold transition inc h'))

-- The first step of processResult; an error is only logged.
unfoldable pub store_result : Times → CheckResult → Hub → Hub
unfolding insert_check_result
store_result times result h = record h {
  store =
      (insert_check_result
        (record {
          monitor = result.monitor;
          timestamp = times.received;
          status = result.status;
          latency_us = result.latency_us;
          metadata = result.metadata;
        })
        h.store).1;
}

unfoldable pub process_result : Times → CheckResult → Hub → Hub
unfolding process_known store_result
process_result times result h =
    let h' = store_result times result h in
    elim (h.monitor_states result.monitor) [
      | none ↦ h'
      | some ms ↦ process_known times result ms h'
    ]

-- Is the monitor of an incident unknown or UP?
unfoldable pub is_stale : Hub → String → Bool
is_stale h monitor = elim (h.monitor_states monitor) [ none ↦ true | some ms ↦ is_up ms.status ]

unfoldable pub resolve_each : Hub → ℕ → List Incident → Store → Store
unfolding is_stale
resolve_each h now [] s = s
resolve_each h now (inc ∷ incs) s =
    resolve_each h now incs
      (if is_stale h inc.monitor then (resolve_incident inc.id now s).1 else s)

unfoldable pub resolve_stale_incidents : ℕ → Hub → Hub
unfolding resolve_each
resolve_stale_incidents now h =
    let (found, s) = get_all_open_incidents h.store in
    elim found [
      | none ↦ record h { store = s }
      | some incs ↦ record h { store = resolve_each h now incs s }
    ]
