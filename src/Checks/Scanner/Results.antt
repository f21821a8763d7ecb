-- ===== src/Checks/Scanner/Results.antt =====
-- internal/checks/security.go: what a scan returns and reports, in whatever order its goroutines run.
use whatsupp.Base.{
  ℕ, zero, suc, ◌+◌, ◌-◌, ◌≤◌, ◌<◌, ◌≡◌, ◌⊎◌, refl, ap, Bool, true, false, ◌&&◌, List, [], ◌∷◌,
  some, arith, ltb, leb, ◌==◌, if◌then◌else◌, length, Bool-cases, Option-cases, inl, inr,
}
use whatsupp.Security.Sort.{count, count-sort, Ascending, Ascending-sort, sort}
use whatsupp.Checks.Scanner.{
  SecurityScanner, PortDialer, DialPhase, dialing, counting, releasing, reporting, ScanRun,
  ScanEvent, spawn, work, pick, with_defaults, is_reported, total, begin, move, step, run, is_none,
  is_finished, scan,
}

-- How many of the goroutines fit a test.
abbrev tally : (PortDialer → Bool) → List PortDialer → ℕ
tally q [] = 0
tally q (w ∷ ws) = let rest = tally q ws in if q w then suc rest else rest

-- Picking one goroutine takes it out of every tally.
tally-pick :
    (q : PortDialer → Bool) (i : ℕ) (ws : List PortDialer) (w : PortDialer) (rest : List PortDialer)
    → pick i ws ≡ some (w, rest)
    → tally q ws ≡ tally q (w ∷ rest)
unfolding pick
tally-pick q i [] w rest e = absurd (ground (arith, e))
tally-pick q zero (x ∷ ws) w rest e = ground (arith, e)
tally-pick q (suc i) (x ∷ ws) w rest e = elim (Option-cases (pick i ws)) [
  | inl missing ↦ absurd (ground (arith, e, missing))
  | inr ((v, others), found) ↦ ground (arith, e, found, tally-pick q i ws v others found)
]

length-pick :
    (i : ℕ) (ws : List PortDialer) (w : PortDialer) (rest : List PortDialer)
    → pick i ws ≡ some (w, rest)
    → length ws ≡ length (w ∷ rest)
unfolding pick
length-pick i [] w rest e = absurd (ground (arith, e))
length-pick zero (x ∷ ws) w rest e = ground (arith, e)
length-pick (suc i) (x ∷ ws) w rest e = elim (Option-cases (pick i ws)) [
  | inl missing ↦ absurd (ground (arith, e, missing))
  | inr ((v, others), found) ↦ ground (arith, e, found, length-pick i ws v others found)
]

-- The port is still to be dialled; the count is not taken; the report of `n` is still to be made.
abbrev undialled : ℕ → PortDialer → Bool
undialled p w = elim w.phase [ dialing ↦ w.port == p | _ ↦ false ]

abbrev uncounted : PortDialer → Bool
uncounted w = elim w.phase [ dialing ↦ true | counting ↦ true | _ ↦ false ]

abbrev unreported : ℕ → PortDialer → Bool
unreported n w = elim w.phase [ reporting m ↦ m == n | _ ↦ false ]

abbrev indicator : Bool → ℕ
indicator b = if b then 1 else 0

module _ (c : SecurityScanner) (answers : ℕ → Bool) where
  record Sound (s : ScanRun) : Type 0 where
    bounded : (c.port_start ≤ s.next) × ((s.next ≤ c.port_end + 1) ⊎ (s.next ≡ c.port_start))
    slots : length s.workers ≤ c.concurrency
    found :
        (p : ℕ)
        → count p s.open_ports + (if answers p then tally (undialled p) s.workers else 0)
          ≡ indicator (leb c.port_start p && ltb p s.next && answers p)
    counted : s.scanned + tally uncounted s.workers ≡ s.next - c.port_start
    reported :
        (n : ℕ)
        → count n s.reports + tally (unreported n) s.workers
          ≡ indicator (leb 1 n && leb n s.scanned && is_reported c n)

  begin-Sound : Sound (begin c)
  unfolding begin
  begin-Sound = record {
    bounded = (omega arith, inr refl);
    slots = omega arith;
    found = λ p. ground arith;
    counted = ground arith;
    reported = λ n. ground arith;
  }

  spawn-Sound : (s : ScanRun) → Sound s → Sound (step c answers spawn s)
  unfolding step
  spawn-Sound s h = record {
    bounded = ground (arith, h.bounded);
    slots = ground (arith, h.slots);
    found = λ p. ground (arith, h.found p, h.bounded);
    counted = ground (arith, h.counted, h.bounded);
    reported = λ n. ground (arith, h.reported n);
  }

  -- A state with one goroutine set apart.
  move-Sound :
      (s : ScanRun) (p : ℕ) (ph : DialPhase) (rest : List PortDialer)
      → Sound (record s { workers = record { port = p; phase = ph } ∷ rest })
      → Sound (move c answers p ph (record s { workers = rest }))
  unfolding move
  move-Sound s p dialing rest h = record {
    bounded = h.bounded;
    slots = h.slots;
    found = λ q. ground (arith, h.found q);
    counted = ground (arith, h.counted);
    reported = λ n. ground (arith, h.reported n);
  }
  move-Sound s p counting rest h = record {
    bounded = h.bounded;
    slots = h.slots;
    found = λ q. ground (arith, h.found q);
    counted = ground (arith, h.counted);
    reported = λ n. ground (arith, h.reported n);
  }
  move-Sound s p (reporting m) rest h = record {
    bounded = h.bounded;
    slots = h.slots;
    found = λ q. ground (arith, h.found q);
    counted = ground (arith, h.counted);
    reported = λ n. ground (arith, h.reported n);
  }
  move-Sound s p releasing rest h = record {
    bounded = h.bounded;
    slots = ground (arith, h.slots);
    found = λ q. ground (arith, h.found q);
    counted = ground (arith, h.counted);
    reported = λ n. ground (arith, h.reported n);
  }

  picked-Sound :
      (s : ScanRun) (i : ℕ) (w : PortDialer) (rest : List PortDialer)
      → pick i s.workers ≡ some (w, rest)
      → Sound s
      → Sound (record s { workers = w ∷ rest })
  picked-Sound s i w rest e h = record {
    bounded = h.bounded;
    slots = omega (arith, h.slots, length-pick i s.workers w rest e);
    found = λ p. rw (tally-pick (undialled p) i s.workers w rest e) at (h.found p);
    counted = rw (tally-pick uncounted i s.workers w rest e) at h.counted;
    reported = λ n. rw (tally-pick (unreported n) i s.workers w rest e) at (h.reported n);
  }

  step-Sound : (e : ScanEvent) (s : ScanRun) → Sound s → Sound (step c answers e s)
  unfolding step
  step-Sound spawn s h = spawn-Sound s h
  step-Sound (work i) s h = elim (Option-cases (pick i s.workers)) [
    | inl missing ↦ rw (missing, step) h
    | inr ((w, rest), found) ↦
        rw (found, step) (move-Sound s w.port w.phase rest (picked-Sound s i w rest found h))
  ]

  run-Sound : (es : List ScanEvent) (s : ScanRun) → Sound s → Sound (run c answers es s)
  unfolding run
  run-Sound [] s h = h
  run-Sound (e ∷ es) s h = run-Sound es (step c answers e s) (step-Sound e s h)

-- However the goroutines of a scan are scheduled, no more of them hold a slot than the concurrency
-- allows.
pub scan_slots :
    (scanner : SecurityScanner) (answers : ℕ → Bool) (es : List ScanEvent)
    → let c = with_defaults scanner in length (run c answers es (begin c)).workers ≤ c.concurrency
scan_slots scanner answers es =
    let c = with_defaults scanner in
    (run-Sound c answers es (begin c) (begin-Sound c answers)).slots

idle : (ws : List PortDialer) → is_none ws ≡ true → ws ≡ []
idle [] e = refl
idle (w ∷ ws) e = absurd (ground (arith, e))

finished-none :
    (c : SecurityScanner) (s : ScanRun)
    → is_finished c s ≡ true
    → (c.port_end < s.next) × (s.workers ≡ [])
unfolding is_finished
finished-none c s e = ground (arith, e, idle s.workers)

-- However the goroutines of a scan are scheduled until it is finished: Scan returns in ascending
-- order the ports from `port_start` to `port_end` that answer, each once, and no other; and it has
-- reported each count of ports, from 1 to their number, that is a multiple of the interval or is that
-- number, once, and no other.
pub scan_in_any_order :
    (scanner : SecurityScanner) (answers : ℕ → Bool) (es : List ScanEvent) (ports reports : List ℕ)
    → scan scanner answers es ≡ some (ports, reports)
    → let c = with_defaults scanner in
      Ascending 0 ports
      × ((p : ℕ)
          → count p ports ≡ (if leb c.port_start p && leb p c.port_end && answers p then 1 else 0))
      × ((n : ℕ)
          → count n reports ≡ (if leb 1 n && leb n (total c) && is_reported c n then 1 else 0))
unfolding scan
scan_in_any_order scanner answers es ports reports e =
    let c = with_defaults scanner in
    let s = run c answers es (begin c) in
    let h = run-Sound c answers es (begin c) (begin-Sound c answers) in
    elim (Bool-cases (is_finished c s)) [
      | inr unfinished ↦ absurd (ground (arith, e, unfinished))
      | inl done ↦
          let (past, none_left) = finished-none c s done in
          let ports_eq : ports ≡ sort s.open_ports = ground (arith, e, done) in
          let reports_eq : reports ≡ s.reports = ground (arith, e, done) in
          let scanned : s.scanned ≡ total c =
            omega (arith, rw none_left at h.counted, past, h.bounded) in
          (
            rw ports_eq (Ascending-sort s.open_ports),
            λ p. ground (
              arith,
              ap (count p) ports_eq,
              count-sort p s.open_ports,
              rw none_left at (h.found p),
              past,
              h.bounded,
            ),
            λ n. ground (arith, ap (count n) reports_eq, rw none_left at (h.reported n), scanned),
          )
    ]
