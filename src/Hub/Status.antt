-- ===== src/Hub/Status.antt =====
-- internal/hub/hub.go: MonitorStatuses and MonitorStatus, with Get24hUptimeAll of
-- internal/store/queries.go and UptimePct of internal/hub/monitor.go. Percentages are a parameter.
use whatsupp.Base.{
  ℕ, ◌-◌, ℤ, ◌≡◌, refl, String, false, ◌&&◌, Option, none, some, arith, leb, ◌==◌, str_eq, eq_iff,
  if◌then◌else◌, length, keep_if, Map, empty_map, insert, Option-cases, inl, inr, Bool-cases, ◌⊎◌,
}
use whatsupp.Monitor.{
  CheckResult, MonitorState, MonitorStatus, up, down, Metadata, no_metadata, json, record_result,
  is_down,
}
use whatsupp.Store.{Store, Db, statement}
use whatsupp.Hub.{Hub, Times, process_known, process_result, store_result}

-- What the hub keeps of a monitor's configuration for display.
pub record Display : Type 0 where
  pub kind : String
  pub url : String
  pub group : String
  pub interval : ℕ

-- The entry of a name that the maps do not have.
abbrev pub no_display : Display
no_display = record { kind = ""; url = ""; group = ""; interval = 0 }

pub record StatusView (V : Type 0) : Type 0 where
  pub name : String
  pub status : String
  pub latency_us : ℕ
  pub last_check : ℕ
  pub uptime_pct : V
  pub cert_days_left : Option ℤ
  pub display : Display

abbrev value_or {ℓ} : {A : Type ℓ} → Option A → A → A
value_or none d = d
value_or (some a) d = a

-- The days in the metadata, if it has them.
unfoldable pub cert_days : Metadata → Option ℤ
cert_days no_metadata = none
cert_days (json days) = days

-- 100 percent, and the percentage of a number of successes in a number of checks: as it is, and
-- rounded to two places by the database.
pub record Percentages (V : Type 0) : Type 0 where
  pub full : V
  pub percent : ℕ → ℕ → V
  pub rounded : ℕ → ℕ → V

module _ {V : Type 0} (p : Percentages V) where
  unfoldable pub uptime_pct : MonitorState → V
  uptime_pct ms = if ms.total_checks == 0 then p.full else p.percent ms.total_up ms.total_checks

  -- The rows of the last day, in groups by their monitor.
  unfoldable pub get_24h_uptime_all : ℕ → Db (Map V)
  unfolding statement
  get_24h_uptime_all now = statement λ t. (
    (λ name.
        let rows =
          keep_if (λ r. leb (now - 86_400) r.timestamp && str_eq r.monitor name) t.check_results in
        if length rows == 0
        then none
        else some (p.rounded (length (keep_if (λ r. str_eq r.status "up") rows)) (length rows))),
    t,
  )

  -- An error leaves the map empty.
  abbrev uptimes_of : ℕ → Store → Map V
  uptimes_of now s = value_or (get_24h_uptime_all now s).0 empty_map

  -- The part that both functions do for a monitor.
  unfoldable pub view : Map Display → Map V → Hub → String → MonitorState → StatusView V
  unfolding uptime_pct cert_days
  view displays uptimes h name ms =
      let result = h.last_results name in
      record {
        name = name;
        status = elim ms.status [ up ↦ "up" | down ↦ "down" ];
        latency_us = elim result [ none ↦ 0 | some r ↦ r.latency_us ];
        last_check = elim result [ none ↦ 0 | some r ↦ value_or (h.last_check_at name) 0 ];
        uptime_pct = value_or (uptimes name) (uptime_pct ms);
        cert_days_left = elim result [ none ↦ none | some r ↦ cert_days r.metadata ];
        display = value_or (displays name) no_display;
      }

  -- The map that the loop over the states fills.
  unfoldable pub monitor_statuses : Map Display → ℕ → Hub → Map (StatusView V)
  unfolding get_24h_uptime_all view
  monitor_statuses displays now h name =
      let uptimes = uptimes_of now h.store in
      elim (h.monitor_states name) [
        | none ↦ none
        | some ms ↦ some (view displays uptimes h name ms)
      ]

  unfoldable pub monitor_status : Map Display → ℕ → Hub → String → Option (StatusView V)
  unfolding get_24h_uptime_all view
  monitor_status displays now h name = elim (h.monitor_states name) [
    | none ↦ none
    | some ms ↦ some (view displays (uptimes_of now h.store) h name ms)
  ]

  -- GET /api/v1/monitors/:name; none for an unknown monitor.
  unfoldable pub get_monitor : Map Display → ℕ → Hub → String → Option (StatusView V)
  unfolding monitor_status
  get_monitor displays now h name = monitor_status displays now h name

abbrev pub status_text : MonitorState → String
status_text ms = if is_down ms.status then "down" else "up"

status_shown :
    (s : MonitorStatus)
    → elim s as (λ x. String) [ up ↦ "up" | down ↦ "down" ] ≡ (if is_down s then "down" else "up")
status_shown up = refl
status_shown down = refl

process_known-shown :
    (times : Times) (r : CheckResult) (ms : MonitorState) (h : Hub)
    → ((process_known times r ms h).monitor_states
        ≡ insert h.monitor_states r.monitor (record_result ms r).0)
      × ((process_known times r ms h).last_results ≡ insert h.last_results r.monitor r)
      × ((process_known times r ms h).last_check_at
          ≡ insert h.last_check_at r.monitor times.checked)
unfolding process_known
process_known-shown times r ms h = (ground arith, ground arith, ground arith)

process_result-shown :
    (times : Times) (r : CheckResult) (ms : MonitorState) (h : Hub)
    → h.monitor_states r.monitor ≡ some ms
    → ((process_result times r h).monitor_states
        ≡ insert h.monitor_states r.monitor (record_result ms r).0)
      × ((process_result times r h).last_results ≡ insert h.last_results r.monitor r)
      × ((process_result times r h).last_check_at ≡ insert h.last_check_at r.monitor times.checked)
unfolding process_result store_result
process_result-shown times r ms h known =
    rw (known, process_result) (process_known-shown times r ms (store_result times r h))

-- Two views of a monitor that differ in the percentage at most; neither, if it is unknown.
abbrev pub SameButUptime : {V : Type 0} → Option (StatusView V) → Option (StatusView V) → Type 0
SameButUptime none none = Unit
SameButUptime none (some after) = ⊥
SameButUptime (some before) none = ⊥
SameButUptime (some before) (some after) = after ≡ record before { uptime_pct = after.uptime_pct }

module _ {V : Type 0} (p : Percentages V) (displays : Map Display) (now : ℕ) (times : Times)
    (r : CheckResult) (ms : MonitorState) (h : Hub)
    (known : h.monitor_states r.monitor ≡ some ms) where
  other_shown :
      (j : String)
      → str_eq r.monitor j ≡ false
      → SameButUptime
          (monitor_status p displays now h j)
          (monitor_status p displays now (process_result times r h) j)
  unfolding monitor_status view
  other_shown j different =
      let shown = process_result-shown times r ms h known in
      let h' = process_result times r h in
      let result_j : h'.last_results j ≡ h.last_results j = rw (shown.1, different) refl in
      let checked_j : h'.last_check_at j ≡ h.last_check_at j = rw (shown.2, different) refl in
      elim (Option-cases (h.monitor_states j)) [
        | inl unknown ↦
            let state_j : h'.monitor_states j ≡ none = rw (shown.0, different) unknown in
            rw (unknown, state_j, monitor_status) tt
        | inr (other, known_j) ↦
            let state_j : h'.monitor_states j ≡ some other = rw (shown.0, different) known_j in
            rw (known_j, state_j, monitor_status)
              (elim (Option-cases (h.last_results j)) [
                | inl absent ↦ rw (result_j, absent, view) refl
                | inr (q, present) ↦ rw (result_j, present, checked_j, view) refl
              ])
      ]

  own_shown :
      (v : StatusView V) × (monitor_status p displays now (process_result times r h) r.monitor
        ≡ some v)
      × (v.status ≡ status_text (record_result ms r).0)
      × (v.latency_us ≡ r.latency_us)
      × (v.last_check ≡ times.checked)
      × (v.cert_days_left ≡ cert_days r.metadata)
  unfolding monitor_status view
  own_shown =
      let h' = process_result times r h in
      let ms' = (record_result ms r).0 in
      let shown = process_result-shown times r ms h known in
      let same = (eq_iff r.monitor r.monitor).1 refl in
      let state : h'.monitor_states r.monitor ≡ some ms' = rw (shown.0, same) refl in
      let result : h'.last_results r.monitor ≡ some r = rw (shown.1, same) refl in
      let checked : h'.last_check_at r.monitor ≡ some times.checked = rw (shown.2, same) refl in
      (
        view p displays (uptimes_of p now h'.store) h' r.monitor ms',
        rw (state, monitor_status) refl,
        status_shown ms'.status,
        rw (result, view) refl,
        rw (result, checked, view) refl,
        rw (result, view) refl,
      )

-- After the result of a known monitor is processed, the status of that monitor shows whether its
-- state is DOWN, the latency and the certificate days of the result, and the time of the check; what
-- is shown of any other name, known or not, stays as it is but for a percentage.
pub monitor_status-process_result :
    {V : Type 0} (p : Percentages V) (displays : Map Display) (now : ℕ) (times : Times)
    (r : CheckResult) (ms : MonitorState) (h : Hub)
    → h.monitor_states r.monitor ≡ some ms
    → let h' = process_result times r h in
      ((v : StatusView V) × (monitor_status p displays now h' r.monitor ≡ some v)
        × (v.status ≡ status_text (record_result ms r).0)
        × (v.latency_us ≡ r.latency_us)
        × (v.last_check ≡ times.checked)
        × (v.cert_days_left ≡ cert_days r.metadata))
      × ((j : String)
          → (r.monitor ≡ j)
            ⊎ SameButUptime
                (monitor_status p displays now h j)
                (monitor_status p displays now h' j))
monitor_status-process_result p displays now times r ms h known = (
  own_shown p displays now times r ms h known,
  λ j. elim (Bool-cases (str_eq r.monitor j)) [
    | inl same ↦ inl ((eq_iff r.monitor j).0 same)
    | inr different ↦ inr (other_shown p displays now times r ms h known j different)
  ],
)
