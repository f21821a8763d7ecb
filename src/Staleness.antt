-- ===== src/Staleness.antt =====
-- internal/hub/staleness.go: incidents of agents that send no metrics, on the incident statements of
-- the store. The clock is in nanoseconds, a heartbeat in Unix seconds. The rows are those of the table
-- agent_heartbeats in the order of their hosts. An alerter is set.
pub mod Detection
use Prim.Native.String.{◌++◌ as append}
use whatsupp.Base.{
  ℕ, ◌+◌, ◌-◌, ◌*◌, ◌/◌, String, Bool, true, false, not, ◌||◌, List, [], ◌∷◌, Option, none, some,
  ltb, ◌==◌, str_eq, if◌then◌else◌, keep_if,
}
use whatsupp.Alerting.{
  NtfyClient, Alert, no_metrics, DurationText, minus_seconds, send_down, send_recovery,
}
use whatsupp.Store.{
  Store, Incident, Db, statement, create_incident, resolve_incident, get_open_incident,
}
use whatsupp.Hub.{format_duration, post}

abbrev pub second : ℕ
second = 1_000_000_000

pub record HeartbeatRow : Type 0 where
  pub host : String
  pub last_seen_at : ℕ

pub record StalenessChecker : Type 0 where
  pub store : Store
  pub alerter : NtfyClient
  pub alerts : List Alert
  pub threshold : ℕ

-- Five minutes if none is given.
unfoldable pub new_staleness_checker : Store → NtfyClient → ℕ → StalenessChecker
new_staleness_checker store alerter threshold = record {
  store = store;
  alerter = alerter;
  alerts = [];
  threshold = if threshold == 0 then 300 * second else threshold;
}

unfoldable pub monitor_name : String → String
monitor_name host = append "agent:" host

-- WHERE last_seen_at < threshold, in whole seconds.
unfoldable pub is_stale_at : ℕ → ℕ → HeartbeatRow → Bool
is_stale_at now threshold hb = ltb hb.last_seen_at ((now - threshold) / second)

unfoldable pub get_stale_agents : ℕ → ℕ → List HeartbeatRow → Db (List HeartbeatRow)
unfolding statement is_stale_at
get_stale_agents now threshold rows = statement λ t. (keep_if (is_stale_at now threshold) rows, t)

unfoldable pub get_all_heartbeats : List HeartbeatRow → Db (List HeartbeatRow)
unfolding statement
get_all_heartbeats rows = statement λ t. (rows, t)

unfoldable pub open_stale : ℕ → ℕ → HeartbeatRow → StalenessChecker → StalenessChecker
unfolding monitor_name get_open_incident create_incident send_down
open_stale now alerted hb sc =
    let name = monitor_name hb.host in
    let (found, s) = get_open_incident name sc.store in
    elim found [
      | none ↦ record sc { store = s }
      | some (some inc) ↦ record sc { store = s }
      | some none ↦
          let cause = no_metrics hb.host sc.threshold in
          let (id, s') = create_incident name (now / second) cause s in
          elim id [
            | none ↦ record sc { store = s' }
            | some i ↦
                let (alerter, posted) = send_down sc.alerter alerted name cause in
                record sc { store = s'; alerter = alerter; alerts = post posted sc.alerts }
          ]
    ]

-- The time since a Unix time; a clock that was set back gives a negative duration.
unfoldable pub duration_since : ℕ → ℕ → DurationText
unfolding format_duration
duration_since now started =
    if ltb now (started * second)
    then minus_seconds ((started * second - now) / second)
    else format_duration (now - started * second)

-- `last_seen_at.Before(now.Add(-threshold))`
unfoldable pub is_silent : ℕ → ℕ → HeartbeatRow → Bool
is_silent now threshold hb = ltb (hb.last_seen_at * second + threshold) now

unfoldable pub resolve_recovered : ℕ → HeartbeatRow → StalenessChecker → StalenessChecker
unfolding is_silent monitor_name get_open_incident resolve_incident send_recovery duration_since
resolve_recovered now hb sc =
    if is_silent now sc.threshold hb
    then sc
    else let name = monitor_name hb.host in
      let (found, s) = get_open_incident name sc.store in
      elim found [
        | none ↦ record sc { store = s }
        | some none ↦ record sc { store = s }
        | some (some inc) ↦
            let (done, s') = resolve_incident inc.id (now / second) s in
            elim done [
              | none ↦ record sc { store = s' }
              | some u ↦
                  let (alerter, posted) =
                    send_recovery sc.alerter name (duration_since now inc.started_at) in
                  record sc { store = s'; alerter = alerter; alerts = post posted sc.alerts }
            ]
      ]

-- `alerted` is the clock of the alerter at each host's alert.
unfoldable pub open_each :
    ℕ → (String → ℕ) → List HeartbeatRow → StalenessChecker → StalenessChecker
unfolding open_stale
open_each now alerted [] sc = sc
open_each now alerted (hb ∷ rows) sc =
    open_each now alerted rows (open_stale now (alerted hb.host) hb sc)

unfoldable pub resolve_each_recovered : ℕ → List HeartbeatRow → StalenessChecker → StalenessChecker
unfolding resolve_recovered
resolve_each_recovered now [] sc = sc
resolve_each_recovered now (hb ∷ rows) sc =
    resolve_each_recovered now rows (resolve_recovered now hb sc)

-- The second half of Check: the flag is false if the statement fails.
unfoldable pub check_recovered : ℕ → List HeartbeatRow → StalenessChecker → Bool × StalenessChecker
unfolding get_all_heartbeats resolve_each_recovered
check_recovered now rows sc =
    let (found, s) = get_all_heartbeats rows sc.store in
    elim found [
      | none ↦ (false, record sc { store = s })
      | some all ↦ (true, resolve_each_recovered now all (record sc { store = s }))
    ]

unfoldable pub check :
    ℕ → (String → ℕ) → List HeartbeatRow → StalenessChecker → Bool × StalenessChecker
unfolding get_stale_agents open_each check_recovered
check now alerted rows sc =
    let (found, s) = get_stale_agents now sc.threshold rows sc.store in
    elim found [
      | none ↦ (false, record sc { store = s })
      | some stale ↦
          check_recovered now rows (open_each now alerted stale (record sc { store = s }))
    ]
