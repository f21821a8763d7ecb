-- ===== src/Scheduler.antt =====
-- internal/hub/scheduler.go, and the registering of checkers in New and ReloadConfig of
-- internal/hub/hub.go. The goroutine of a monitor is a state machine; its events are the end of a
-- check, a tick, the hub receiving a result, and the branch of the closed channel stopCh. A ticker
-- whose interval is not positive panics, which ends the program.
pub mod Runs
pub mod Start
use whatsupp.Base.{
  ℕ, pos, leb_ℤ, String, Bool, true, false, ◌&&◌, ◌||◌, List, [], ◌∷◌, Option, none, some, ◌==◌,
  str_eq, if◌then◌else◌,
}
use whatsupp.Monitor.{CheckResult}
use whatsupp.Config.{Monitor}

-- The names for which a checker is registered: those of monitors of a known type.
unfoldable pub has_checker : Monitor → Bool
has_checker m =
    str_eq m.type "http" || str_eq m.type "ping" || str_eq m.type "port" || str_eq m.type "dns"

unfoldable pub register_checkers : List Monitor → String → Bool
unfolding has_checker
register_checkers [] name = false
register_checkers (m ∷ ms) name = (has_checker m && str_eq m.name name) || register_checkers ms name

pub data Phase : Type 0 where
  checking waiting done : Phase
  sending : CheckResult → Phase

pub record Worker : Type 0 where
  pub monitor : Monitor
  pub phase : Phase

-- A goroutine for each monitor with a checker; none if one of their tickers panics.
unfoldable pub start : (String → Bool) → List Monitor → Option (List Worker)
start checkers [] = some []
start checkers (m ∷ ms) =
    let rest = start checkers ms in
    if checkers m.name
    then (if leb_ℤ m.interval (pos 0) then none else elim rest [
      | none ↦ none
      | some ws ↦ some (record { monitor = m; phase = checking } ∷ ws)
    ])
    else rest

pub data Event : Type 0 where
  checked : CheckResult → Event
  received tick stopped : Event

-- An event that the phase does not wait for changes nothing.
unfoldable pub next_phase : String → Phase → Event → Phase
next_phase name checking (checked r) = sending (record r { monitor = name })
next_phase name (sending r) received = waiting
next_phase name (sending r) stopped = done
next_phase name waiting tick = checking
next_phase name waiting stopped = done
next_phase name phase event = phase

unfoldable pub delivered : Phase → Event → List CheckResult → List CheckResult
delivered (sending r) received rs = r ∷ rs
delivered phase event rs = rs

-- The worker after some events, and the results that it has sent, newest first.
unfoldable pub run_monitor : Worker → List CheckResult → List Event → Worker × List CheckResult
unfolding next_phase delivered
run_monitor w rs [] = (w, rs)
run_monitor w rs (e ∷ es) =
    run_monitor (record w { phase = next_phase w.monitor.name w.phase e }) (delivered w.phase e rs)
      es
