-- ===== src/Scheduler/Runs.antt =====
-- internal/hub/scheduler.go: what the goroutine of a monitor sends.
use whatsupp.Base.{ℕ, suc, ◌+◌, ◌≤◌, ◌≡◌, refl, String, List, [], ◌∷◌, arith, length, All}
use whatsupp.Monitor.{CheckResult}
use whatsupp.Config.{Monitor}
use whatsupp.Scheduler.{
  Phase, checking, waiting, done, sending, Worker, Event, checked, received, tick, stopped,
  next_phase, delivered, run_monitor,
}

abbrev pub ticks : List Event → ℕ
ticks [] = 0
ticks (tick ∷ es) = suc (ticks es)
ticks (checked r ∷ es) = ticks es
ticks (received ∷ es) = ticks es
ticks (stopped ∷ es) = ticks es

-- A result that is under way or still to come before the next tick.
abbrev pending : Phase → ℕ
pending checking = 1
pending (sending r) = 1
pending waiting = 0
pending done = 0

-- The result that is under way is of the monitor.
abbrev Named : String → Phase → Type 0
Named name checking = Unit
Named name (sending r) = r.monitor ≡ name
Named name waiting = Unit
Named name done = Unit

step-Named :
    (name : String) (p : Phase) (e : Event) → Named name p → Named name (next_phase name p e)
unfolding next_phase
step-Named name checking (checked r) n = refl
step-Named name checking received n = tt
step-Named name checking tick n = tt
step-Named name checking stopped n = tt
step-Named name (sending r) (checked q) n = n
step-Named name (sending r) received n = tt
step-Named name (sending r) tick n = n
step-Named name (sending r) stopped n = tt
step-Named name waiting (checked r) n = tt
step-Named name waiting received n = tt
step-Named name waiting tick n = tt
step-Named name waiting stopped n = tt
step-Named name done (checked r) n = tt
step-Named name done received n = tt
step-Named name done tick n = tt
step-Named name done stopped n = tt

abbrev pub OfMonitor : String → List CheckResult → Type 0
OfMonitor name rs = All (λ r. r.monitor ≡ name) rs

delivered-OfMonitor :
    (name : String) (p : Phase) (e : Event) (rs : List CheckResult)
    → Named name p
    → OfMonitor name rs
    → OfMonitor name (delivered p e rs)
unfolding delivered
delivered-OfMonitor name (sending r) received rs n ns = (n, ns)
delivered-OfMonitor name (sending r) (checked q) rs n ns = ns
delivered-OfMonitor name (sending r) tick rs n ns = ns
delivered-OfMonitor name (sending r) stopped rs n ns = ns
delivered-OfMonitor name checking e rs n ns = ns
delivered-OfMonitor name waiting e rs n ns = ns
delivered-OfMonitor name done e rs n ns = ns

-- No event but a tick adds to the results that are sent or under way.
sent_le :
    (name : String) (p : Phase) (e : Event) (rs : List CheckResult)
    → length (delivered p e rs) + pending (next_phase name p e)
      ≤ length rs + pending p + ticks (e ∷ [])
unfolding delivered next_phase
sent_le name p e rs = ground arith

ticks_cons : (e : Event) (es : List Event) → ticks (e ∷ es) ≡ ticks (e ∷ []) + ticks es
ticks_cons (checked r) es = omega arith
ticks_cons received es = omega arith
ticks_cons tick es = omega arith
ticks_cons stopped es = omega arith

run-sent :
    (w : Worker) (rs : List CheckResult) (es : List Event)
    → Named w.monitor.name w.phase
    → OfMonitor w.monitor.name rs
    → OfMonitor w.monitor.name (run_monitor w rs es).1
      × (length (run_monitor w rs es).1 + pending (run_monitor w rs es).0.phase
          ≤ length rs + pending w.phase + ticks es)
unfolding run_monitor
run-sent w rs [] n ns = (ns, omega arith)
run-sent w rs (e ∷ es) n ns =
    let name = w.monitor.name in
    let (all, bound) =
      run-sent (record w { phase = next_phase name w.phase e }) (delivered w.phase e rs) es
        (step-Named name w.phase e n) (delivered-OfMonitor name w.phase e rs n ns) in
    (all, omega (arith, bound, sent_le name w.phase e rs, ticks_cons e es))

-- Whatever happens to a monitor's goroutine after its start, each result that it sends carries the
-- name of the monitor, and it sends at most one result more than there were ticks.
pub run_monitor_lem :
    (m : Monitor) (es : List Event)
    → let sent = (run_monitor (record { monitor = m; phase = checking }) [] es).1 in
      OfMonitor m.name sent × (length sent ≤ suc (ticks es))
run_monitor_lem m es =
    let (all, bound) = run-sent (record { monitor = m; phase = checking }) [] es tt tt in
    (all, omega (arith, bound))
