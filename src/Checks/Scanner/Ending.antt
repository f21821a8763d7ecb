-- ===== src/Checks/Scanner/Ending.antt =====
-- internal/checks/security.go: a scan ends under every schedule and is never stuck.
use whatsupp.Base.{
  ℕ, zero, suc, ◌+◌, ◌-◌, ◌*◌, ◌≤◌, ◌<◌, ◌≡◌, ◌⊎◌, refl, Bool, true, false, ◌&&◌, List, [], ◌∷◌,
  ◌++◌, none, some, arith, ltb, leb, if◌then◌else◌, length, Bool-cases, Option-cases, inl, inr,
}
use whatsupp.Security.Sort.{sort}
use whatsupp.Checks.Scanner.{
  SecurityScanner, PortDialer, DialPhase, dialing, counting, releasing, reporting, ScanRun,
  ScanEvent, spawn, work, pick, with_defaults, total, begin, move, step, run, is_finished, is_none,
  scan,
}

-- The moves that a goroutine has left, and those of a list of goroutines.
abbrev moves_left : DialPhase → ℕ
moves_left dialing = 4
moves_left counting = 3
moves_left (reporting n) = 2
moves_left releasing = 1

abbrev all_left : List PortDialer → ℕ
all_left [] = 0
all_left (w ∷ ws) = moves_left w.phase + all_left ws

all_left-pick :
    (i : ℕ) (ws : List PortDialer) (w : PortDialer) (rest : List PortDialer)
    → pick i ws ≡ some (w, rest)
    → all_left ws ≡ moves_left w.phase + all_left rest
unfolding pick
all_left-pick i [] w rest e = absurd (ground (arith, e))
all_left-pick zero (x ∷ ws) w rest e = ground (arith, e)
all_left-pick (suc i) (x ∷ ws) w rest e = elim (Option-cases (pick i ws)) [
  | inl missing ↦ absurd (ground (arith, e, missing))
  | inr ((v, others), found) ↦ ground (arith, e, found, all_left-pick i ws v others found)
]

List-cases :
    (ws : List PortDialer)
    → (ws ≡ []) ⊎ ((w : PortDialer) × (rest : List PortDialer) × (ws ≡ w ∷ rest))
List-cases [] = inl refl
List-cases (w ∷ ws) = inr (w, ws, refl)

module _ (c : SecurityScanner) (answers : ℕ → Bool) where
  remaining : ScanRun → ℕ
  remaining s = 5 * (c.port_end + 1 - s.next) + all_left s.workers

  -- Whether an event can happen.
  abbrev pub happens : ScanEvent → ScanRun → Bool
  happens spawn s = leb s.next c.port_end && ltb (length s.workers) c.concurrency
  happens (work i) s = elim (pick i s.workers) [ none ↦ false | some p ↦ true ]

  move-remaining :
      (p : ℕ) (ph : DialPhase) (s : ScanRun)
      → remaining (move c answers p ph s) < moves_left ph + remaining s
  unfolding move remaining
  move-remaining p dialing s = omega arith
  move-remaining p counting s = ground arith
  move-remaining p (reporting n) s = omega arith
  move-remaining p releasing s = omega arith

  -- An event that happens leaves fewer moves, and any other changes nothing.
  step-remaining :
      (e : ScanEvent) (s : ScanRun)
      → remaining (step c answers e s) + (if happens e s then 1 else 0) ≤ remaining s
  unfolding step remaining
  step-remaining spawn s = ground arith
  step-remaining (work i) s = elim (Option-cases (pick i s.workers)) [
    | inl missing ↦ rw (missing, step, happens) (omega arith)
    | inr ((w, rest), found) ↦
        rw (found, step, happens)
          (omega (
            arith,
            move-remaining w.port w.phase (record s { workers = rest }),
            all_left-pick i s.workers w rest found,
          ))
  ]

  -- The events of a schedule that can happen when their turn comes.
  abbrev pub effective : List ScanEvent → ScanRun → ℕ
  effective [] s = 0
  effective (e ∷ es) s = (if happens e s then 1 else 0) + effective es (step c answers e s)

  effective-le : (es : List ScanEvent) (s : ScanRun) → effective es s ≤ remaining s
  effective-le [] s = omega arith
  effective-le (e ∷ es) s = omega (arith, effective-le es (step c answers e s), step-remaining e s)

  -- An event that can happen in a state that is not finished.
  abbrev next_event : ScanRun → ScanEvent
  next_event s = if is_none s.workers then spawn else work 0

  next-happens :
      (s : ScanRun) → 1 ≤ c.concurrency → is_finished c s ≡ false → happens (next_event s) s ≡ true
  unfolding is_finished pick
  next-happens s k e = elim (List-cases s.workers) [
    | inl idle ↦ rw idle (ground (arith, e, idle))
    | inr (w, ws, busy) ↦ rw busy refl
  ]

  finish :
      (n : ℕ) (s : ScanRun)
      → 1 ≤ c.concurrency
      → remaining s < n
      → (es : List ScanEvent) × (is_finished c (run c answers es s) ≡ true)
  unfolding run
  finish zero s k h = absurd (omega arith)
  finish (suc n) s k h = elim (Bool-cases (is_finished c s)) [
    | inl done ↦ ([], done)
    | inr unfinished ↦
        let e = next_event s in
        let falls = rw (next-happens s k unfinished) at (step-remaining e s) in
        let (es, done) = finish n (step c answers e s) k (omega (arith, falls)) in (e ∷ es, done)
  ]

  run-append :
      (es more : List ScanEvent) (s : ScanRun)
      → run c answers (es ++ more) s ≡ run c answers more (run c answers es s)
  unfolding run
  run-append [] more s = refl
  run-append (e ∷ es) more s = run-append es more (step c answers e s)

some_slot : (scanner : SecurityScanner) → 1 ≤ (with_defaults scanner).concurrency
unfolding with_defaults
some_slot scanner = ground arith

pub scan_ends :
    (scanner : SecurityScanner) (answers : ℕ → Bool) (es : List ScanEvent)
    → let c = with_defaults scanner in
      (effective c answers es (begin c) ≤ 5 * total c)
      × ((more : List ScanEvent) × (r : List ℕ × List ℕ) × (scan scanner answers (es ++ more)
            ≡ some r))
unfolding scan
scan_ends scanner answers es =
    let c = with_defaults scanner in
    let s = run c answers es (begin c) in
    let (more, done) =
      finish c answers (suc (remaining c answers s)) s (some_slot scanner) (omega arith) in
    let last = run c answers more s in
    let at_begin : remaining c answers (begin c) ≡ 5 * total c =
      unfold remaining in unfold begin in omega arith in
    (
      omega (arith, effective-le c answers es (begin c), at_begin),
      (
        more,
        (sort last.open_ports, last.reports),
        rw (run-append c answers es more (begin c), done) refl,
      ),
    )
