-- ===== src/Checks/Scanner.antt =====
-- internal/checks/security.go: SecurityScanner.Scan. The goroutines are a state machine: an event is
-- the loop starting the goroutine of its next port, or a move of one of the goroutines that hold a
-- slot of the semaphore. Whether a port answers is a parameter. The settings are not negative.
pub mod Results
pub mod Ending
use whatsupp.Base.{
  ℕ, zero, suc, ◌+◌, ◌-◌, ◌/◌, ◌%◌, Bool, true, false, ◌&&◌, ◌||◌, List, [], ◌∷◌, Option, none,
  some, ltb, leb, ◌==◌, if◌then◌else◌, length,
}
use whatsupp.Security.Sort.{sort}

pub record SecurityScanner : Type 0 where
  pub concurrency : ℕ
  pub port_start : ℕ
  pub port_end : ℕ

unfoldable pub or_default : ℕ → ℕ → ℕ
or_default default n = if n == 0 then default else n

unfoldable pub with_defaults : SecurityScanner → SecurityScanner
unfolding or_default
with_defaults s = record {
  concurrency = or_default 200 s.concurrency;
  port_start = or_default 1 s.port_start;
  port_end = or_default 65_535 s.port_end;
}

-- What a goroutine does next: dial; count its port; report that count; free its slot.
pub data DialPhase : Type 0 where
  dialing counting releasing : DialPhase
  reporting : ℕ → DialPhase

pub record PortDialer : Type 0 where
  pub port : ℕ
  pub phase : DialPhase

-- `next` is the variable of the loop; the order of the workers is of no account. The open ports and
-- the counts given to ProgressFn, which is set, are newest first.
pub record ScanRun : Type 0 where
  pub next : ℕ
  pub workers : List PortDialer
  pub open_ports : List ℕ
  pub scanned : ℕ
  pub reports : List ℕ

pub data ScanEvent : Type 0 where
  spawn : ScanEvent
  work : ℕ → ScanEvent

-- The worker at an index, and the others.
unfoldable pub pick : ℕ → List PortDialer → Option (PortDialer × List PortDialer)
pick i [] = none
pick zero (w ∷ ws) = some (w, ws)
pick (suc i) (w ∷ ws) = elim (pick i ws) [ none ↦ none | some (v, rest) ↦ some (v, w ∷ rest) ]

abbrev pub total : SecurityScanner → ℕ
total c = c.port_end + 1 - c.port_start

abbrev interval : SecurityScanner → ℕ
interval c = if ltb (total c / 100) 1 then 1 else total c / 100

abbrev pub is_reported : SecurityScanner → ℕ → Bool
is_reported c n = n % interval c == 0 || n == total c

unfoldable pub begin : SecurityScanner → ScanRun
begin c = record { next = c.port_start; workers = []; open_ports = []; scanned = 0; reports = [] }

module _ (c : SecurityScanner) (answers : ℕ → Bool) where
  -- The move of a worker that has been taken off the list.
  unfoldable pub move : ℕ → DialPhase → ScanRun → ScanRun
  move p dialing s = record s {
    open_ports = if answers p then p ∷ s.open_ports else s.open_ports;
    workers = record { port = p; phase = counting } ∷ s.workers;
  }
  move p counting s = record s {
    scanned = s.scanned + 1;
    workers =
        record {
          port = p;
          phase = if is_reported c (s.scanned + 1) then reporting (s.scanned + 1) else releasing;
        }
        ∷ s.workers;
  }
  move p (reporting n) s = record s {
    reports = n ∷ s.reports;
    workers = record { port = p; phase = releasing } ∷ s.workers;
  }
  move p releasing s = s

  unfoldable pub step : ScanEvent → ScanRun → ScanRun
  unfolding pick move
  step spawn s =
      if leb s.next c.port_end && ltb (length s.workers) c.concurrency
      then record s {
        next = s.next + 1;
        workers = record { port = s.next; phase = dialing } ∷ s.workers;
      }
      else s
  step (work i) s = elim (pick i s.workers) [
    | none ↦ s
    | some (w, rest) ↦ move w.port w.phase (record s { workers = rest })
  ]

  unfoldable pub run : List ScanEvent → ScanRun → ScanRun
  unfolding step
  run [] s = s
  run (e ∷ es) s = run es (step e s)

abbrev pub is_none : List PortDialer → Bool
is_none [] = true
is_none (w ∷ ws) = false

-- The loop has ended and so has every goroutine.
unfoldable pub is_finished : SecurityScanner → ScanRun → Bool
is_finished c s = ltb c.port_end s.next && is_none s.workers

-- What Scan returns, and its reports, newest first; none if the schedule does not finish it.
unfoldable pub scan : SecurityScanner → (ℕ → Bool) → List ScanEvent → Option (List ℕ × List ℕ)
unfolding with_defaults begin run is_finished sort
scan scanner answers es =
    let c = with_defaults scanner in
    let s = run c answers es (begin c) in
    if is_finished c s then some (sort s.open_ports, s.reports) else none
