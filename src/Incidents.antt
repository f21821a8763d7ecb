-- ===== src/Incidents.antt =====
-- internal/hub/incidents.go: what a transition does to the incident table.
use whatsupp.Base.{ℕ, String, Option, none, some}
use whatsupp.Monitor.{Transition, stay, to_down, to_up}
use whatsupp.Alerting.{Cause}
use whatsupp.Store.{
  Incident, Db, pure, ◌>>=◌, ◌>>◌, create_incident, resolve_incident, get_open_incident,
}

abbrev resolve_found : Option Incident → ℕ → Db (Option Incident)
resolve_found none timestamp = pure none
resolve_found (some inc) timestamp = do
  resolve_incident inc.id timestamp
  pure (some (record inc { resolved_at = some timestamp }))

unfoldable pub handle_transition : String → Transition → ℕ → Cause → Db (Option Incident)
unfolding create_incident resolve_incident get_open_incident
handle_transition monitor to_down timestamp cause = do
  id ← create_incident monitor timestamp cause
  pure (
      some (record {
        id = id;
        monitor = monitor;
        started_at = timestamp;
        resolved_at = none;
        cause = cause;
      }))
handle_transition monitor to_up timestamp cause = do
  inc ← get_open_incident monitor
  resolve_found inc timestamp
handle_transition monitor stay timestamp cause = pure none
