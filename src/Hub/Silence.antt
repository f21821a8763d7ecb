-- ===== src/Hub/Silence.antt =====
-- internal/hub/hub.go: what a failing result of a monitor that is DOWN already does.
use whatsupp.Base.{ℕ, suc, ◌≡◌, refl, subst, ◌∙◌, String, false, List, [], ◌∷◌, some, arith, eq_iff}
use whatsupp.Monitor.{CheckResult, MonitorState, down, stay, succeeded, record_result}
use whatsupp.Alerting.{Alert, monitor_down, send_ssl_expiry}
use whatsupp.Hub.{Hub, Times, process_result}
use whatsupp.Incidents.{handle_transition}

-- How many DOWN alerts were posted.
abbrev pub down_alerts : List Alert → ℕ
down_alerts [] = 0
down_alerts (monitor_down m cause ∷ alerts) = suc (down_alerts alerts)
down_alerts (_ ∷ alerts) = down_alerts alerts

-- Failing results of one monitor, one after another, each with its times.
abbrev pub Failing : String → List (Times × CheckResult) → Type 0
Failing m [] = Unit
Failing m ((t, r) ∷ rs) = (r.monitor ≡ m) × (succeeded r ≡ false) × Failing m rs

abbrev pub process_all : List (Times × CheckResult) → Hub → Hub
process_all [] h = h
process_all ((t, r) ∷ rs) h = process_all rs (process_result t r h)

still_down :
    (ms : MonitorState) (r : CheckResult)
    → ms.status ≡ down
    → succeeded r ≡ false
    → ((record_result ms r).1 ≡ stay) × ((record_result ms r).0.status ≡ down)
unfolding record_result
still_down ms r d f = ground arith

module _ (t : Times) (r : CheckResult) (ms : MonitorState) (h : Hub) where
  still_down_step :
      h.monitor_states r.monitor ≡ some ms
      → ms.status ≡ down
      → succeeded r ≡ false
      → (down_alerts (process_result t r h).alerts ≡ down_alerts h.alerts)
        × ((process_result t r h).store.tables.incidents ≡ h.store.tables.incidents)
        × ((process_result t r h).monitor_states r.monitor ≡ some (record_result ms r).0)
  unfolding process_result handle_transition send_ssl_expiry
  still_down_step known d f =
      let (stays, _) = still_down ms r d f in ground (arith, eq_iff r.monitor r.monitor)

-- However long a DOWN monitor goes on failing, whatever the times of its results and the reminder
-- interval, no further DOWN alert is posted and the incident table stays as it is.
no_reminders :
    (m : String) (rs : List (Times × CheckResult)) (ms : MonitorState) (h : Hub)
    → h.monitor_states m ≡ some ms
    → ms.status ≡ down
    → Failing m rs
    → (down_alerts (process_all rs h).alerts ≡ down_alerts h.alerts)
      × ((process_all rs h).store.tables.incidents ≡ h.store.tables.incidents)
no_reminders m [] ms h known d f = (refl, refl)
no_reminders m ((t, r) ∷ rs) ms h known d (named, failing, rest) =
    let known' : h.monitor_states r.monitor ≡ some ms = rw named known in
    let (alerts, incidents, known_after) = still_down_step t r ms h known' d failing in
    let (alerts', incidents') =
      no_reminders m rs (record_result ms r).0 (process_result t r h)
        (subst (λ k. (process_result t r h).monitor_states k ≡ some (record_result ms r).0) named
          known_after)
        (still_down ms r d failing).1 rest in
    (alerts' ∙ alerts, incidents' ∙ incidents)
