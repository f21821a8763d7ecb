-- ===== src/Examples/Outages.antt =====
-- internal/api/handlers.go, internal/hub/hub.go: a second failure in a row, and the incidents listed.
use whatsupp.Base.{◌≤◌, ◌≡◌, refl, ◌↔◌, List, none, some, arith, Listed, insert, empty_map}
use whatsupp.Monitor.{MonitorState, up, record_result}
use whatsupp.Store.{Incident}
use whatsupp.Hub.{Hub, Times, process_result}
use whatsupp.Listings.{ApiIncident, as_api, listed, list_incidents, parse_time_range}
use whatsupp.Listings.Rows.{Falling}
use whatsupp.Listings.Outages.{outage_of, list_incidents_lem, outage_is_listed}
use whatsupp.Examples.Checks.{timed_out}
use whatsupp.Examples.Hubs.{hub, web_down}

-- The incidents of the table started at the times 100 and 20.
list_incidents_lem_example :
    (rows : List ApiIncident) × ((list_incidents (some 50) (some 120) 90_000 hub.store).0
      ≡ listed rows)
    × Falling rows
    × ((a : ApiIncident)
        → Listed a rows ↔ (
            (x : Incident) × Listed x hub.store.tables.incidents
            × (50 ≤ x.started_at)
            × (x.started_at ≤ 120)
            × (as_api x ≡ a)))
unfolding parse_time_range
list_incidents_lem_example = list_incidents_lem (some 50) (some 120) 90_000 hub.store refl

abbrev web_failing : MonitorState
web_failing = record web_down { status = up; consecutive_failures = 1 }

abbrev failing_hub : Hub
failing_hub = record hub { monitor_states = insert empty_map "web" web_failing }

abbrev times : Times
times = record { received = 90_000; checked = 90_001; alerted = 90_001_000_000_000 }

outage_is_listed_example :
    (rows : List ApiIncident) × ((list_incidents none none 100_000
        (process_result times timed_out failing_hub).store).0
      ≡ listed rows)
    × Listed (as_api (outage_of times timed_out failing_hub)) rows
unfolding record_result
outage_is_listed_example =
    outage_is_listed times timed_out web_failing failing_hub 100_000 (λ n. refl) refl refl
      (omega arith) (omega arith)
