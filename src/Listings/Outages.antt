-- ===== src/Listings/Outages.antt =====
-- internal/api/handlers.go, internal/hub/hub.go: which incidents are listed, and that an outage is.
use whatsupp.Base.{
  ℕ, ◌≤◌, ◌+◌, ◌≡◌, refl, ◌↔◌, false, List, ◌∷◌, Option, none, some, arith, keep_if, map, Listed,
  inl, keep_if-Listed, Listed-keep_if, map-Listed, Listed-map,
}
use whatsupp.Monitor.{CheckResult, MonitorState, to_down, record_result}
use whatsupp.Alerting.{check_error}
use whatsupp.Store.{Store, Incident, by_start, fresh_id}
use whatsupp.Hub.{Hub, Times, process_result, store_result}
use whatsupp.Hub.Consistency.{
  NeverFails, fails-handle, handle_to_down, process_known-store, process_result-known,
}
use whatsupp.Listings.{
  ApiIncident, as_api, in_range, get_incidents, parse_time_range, adapter_get_incidents, listed,
  list_incidents,
}
use whatsupp.Listings.Rows.{Falling, by_start-Listed, Listed-by_start, by_start-api}

-- The rows of a list of incidents.
abbrev shown : ℕ × ℕ → Store → List ApiIncident
shown (start, end) s = map as_api (by_start (keep_if (in_range start end) s.tables.incidents))

list_incidents-shown :
    (from to : Option ℕ) (now : ℕ) (s : Store)
    → s.fails s.calls ≡ false
    → (list_incidents from to now s).0 ≡ listed (shown (parse_time_range from to now) s)
unfolding list_incidents get_incidents adapter_get_incidents
list_incidents-shown from to now s ok = rw ok refl

-- If the query does not fail, a list of incidents is in the order of falling start times, and it has
-- just the incidents of the table whose start lies in the range asked for, at either end included.
pub list_incidents_lem :
    (from to : Option ℕ) (now : ℕ) (s : Store)
    → s.fails s.calls ≡ false
    → let range = parse_time_range from to now in
      (rows : List ApiIncident) × ((list_incidents from to now s).0 ≡ listed rows)
      × Falling rows
      × ((a : ApiIncident)
          → Listed a rows ↔ (
              (x : Incident) × Listed x s.tables.incidents
              × (range.0 ≤ x.started_at)
              × (x.started_at ≤ range.1)
              × (as_api x ≡ a)))
list_incidents_lem from to now s ok =
    let range = parse_time_range from to now in
    let test = in_range range.0 range.1 in
    let found = keep_if test s.tables.incidents in
    (
      shown range s,
      list_incidents-shown from to now s ok,
      by_start-api found,
      λ a. (
        λ h.
            let (x, sorted, same) = Listed-map as_api a (by_start found) h in
            let (held, kept) =
              Listed-keep_if test x s.tables.incidents (Listed-by_start x found sorted) in
            (x, held, ground (arith, kept), ground (arith, kept), same),
        λ (x, held, after, before, same). rw (← same) (
            map-Listed as_api x (by_start found) (
              by_start-Listed x found
                (keep_if-Listed test x s.tables.incidents held (ground (arith, after, before))))),
      ),
    )

module _ (t : Times) (r : CheckResult) (h : Hub) where
  -- The incident that a transition to DOWN creates.
  abbrev pub outage_of : Incident
  outage_of = record {
    id = fresh_id h.store.tables.incidents;
    monitor = r.monitor;
    started_at = t.received;
    resolved_at = none;
    cause = check_error r.error;
  }

  stored_facts :
      NeverFails h.store
      → NeverFails (store_result t r h).store
        × ((store_result t r h).store.tables.incidents ≡ h.store.tables.incidents)
        × ((store_result t r h).monitor_states ≡ h.monitor_states)
  unfolding store_result
  stored_facts ok = (
    λ n. ground (arith, ok n),
    ground (arith, ok h.store.calls),
    ground (arith, ok h.store.calls),
  )

  process_result-outage :
      (ms : MonitorState)
      → NeverFails h.store
      → h.monitor_states r.monitor ≡ some ms
      → (record_result ms r).1 ≡ to_down
      → ((process_result t r h).store.tables.incidents ≡ outage_of ∷ h.store.tables.incidents)
        × NeverFails (process_result t r h).store
  process_result-outage ms ok known falls =
      let h' = store_result t r h in
      let (never, incidents, states) = stored_facts ok in
      let created = handle_to_down h'.store never r.monitor t.received (check_error r.error) in
      rw (process_result-known t r ms h known, process_known-store t r ms h', falls)
        (rw (created, incidents) refl, λ n. rw fails-handle (never n))

-- With a store whose statements do not fail, a result by which a known monitor goes DOWN makes an
-- open incident, with the time and the error of the result, that a request without parameters lists
-- within the next 24 hours.
pub outage_is_listed :
    (t : Times) (r : CheckResult) (ms : MonitorState) (h : Hub) (now : ℕ)
    → NeverFails h.store
    → h.monitor_states r.monitor ≡ some ms
    → (record_result ms r).1 ≡ to_down
    → t.received ≤ now
    → now ≤ t.received + 86_400
    → (rows : List ApiIncident) × ((list_incidents none none now (process_result t r h).store).0
        ≡ listed rows)
      × Listed (as_api (outage_of t r h)) rows
unfolding parse_time_range
outage_is_listed t r ms h now ok known falls after soon =
    let s = (process_result t r h).store in
    let (incidents, never) = process_result-outage t r h ms ok known falls in
    let (rows, shows, order, members) = list_incidents_lem none none now s (never s.calls) in
    (
      rows,
      shows,
      (members (as_api (outage_of t r h))).1 (
        outage_of t r h,
        rw incidents (inl refl),
        omega (arith, soon),
        omega (arith, after),
        refl,
      ),
    )
