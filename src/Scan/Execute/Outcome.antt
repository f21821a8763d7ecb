-- ===== src/Scan/Execute/Outcome.antt =====
-- internal/hub/hub.go: what a scan leaves behind, however its goroutines were scheduled.
use whatsupp.Base.{
  ℕ, zero, suc, ◌+◌, ◌≤◌, ◌<◌, ◌≡◌, refl, String, Bool, ◌&&◌, List, [], ◌∷◌, some, arith, leb,
  if◌then◌else◌, length, map, ◌++◌, All, delete, Option-cases, inl, inr,
}
use whatsupp.Security.Sort.{count, Ascending, Ascending-unique}
use whatsupp.Checks.Scanner.{SecurityScanner, ScanEvent, with_defaults, total, scan}
use whatsupp.Checks.Scanner.Results.{scan_in_any_order}
use whatsupp.Scan.{SecurityTarget, process_scan_result}
use whatsupp.Scan.Execute.{
  ScanBoard, scan_start, scan_progress, scan_complete, scanner_of, report_progress, report_all,
  complete, execute_security_scan,
}

-- The ports that answer, of `n` ports from a first one on, tried one by one.
unfoldable pub answering : (ℕ → Bool) → ℕ → ℕ → List ℕ
answering answers zero first = []
answering answers (suc n) first =
    let rest = answering answers n (first + 1) in if answers first then first ∷ rest else rest

Ascending-answering :
    (answers : ℕ → Bool) (n first lo : ℕ) → lo ≤ first → Ascending lo (answering answers n first)
unfolding answering
Ascending-answering answers zero first lo le = tt
Ascending-answering answers (suc n) first lo le = ground (
  arith,
  Ascending-answering answers n (first + 1) first (omega arith),
  Ascending-answering answers n (first + 1) lo (omega (arith, le)),
  le,
)

count-answering :
    (answers : ℕ → Bool) (p n first : ℕ)
    → count p (answering answers n first)
      ≡ (if leb first p && leb (p + 1) (first + n) && answers p then 1 else 0)
unfolding answering
count-answering answers p zero first = ground arith
count-answering answers p (suc n) first = grind (arith, count-answering answers p n (first + 1))

scanned_ports :
    (scanner : SecurityScanner) (answers : ℕ → Bool) (es : List ScanEvent) (ports reports : List ℕ)
    → scan scanner answers es ≡ some (ports, reports)
    → let c = with_defaults scanner in ports ≡ answering answers (total c) c.port_start
scanned_ports scanner answers es ports reports e =
    let c = with_defaults scanner in
    let (ascending, counts, reported) = scan_in_any_order scanner answers es ports reports e in
    Ascending-unique 0 ports (answering answers (total c) c.port_start) ascending
      (Ascending-answering answers (total c) c.port_start 0 (omega arith))
      (λ p. ground (arith, counts p, count-answering answers p (total c) c.port_start))

All-le : (k : ℕ) (ns : List ℕ) → ((n : ℕ) → k < n → count n ns ≡ 0) → All (λ n. n ≤ k) ns
All-le k [] none_above = tt
All-le k (n ∷ ns) none_above =
    (ground (arith, none_above n), All-le k ns (λ m above. ground (arith, none_above m above)))

reports_le :
    (scanner : SecurityScanner) (answers : ℕ → Bool) (es : List ScanEvent) (ports reports : List ℕ)
    → scan scanner answers es ≡ some (ports, reports)
    → All (λ n. n ≤ total (with_defaults scanner)) reports
reports_le scanner answers es ports reports e =
    let (ascending, counts, reported) = scan_in_any_order scanner answers es ports reports e in
    All-le (total (with_defaults scanner)) reports (λ n above. ground (arith, reported n, above))

-- What the reports of a scan change.
record Reported (host : String) (all : ℕ) (ns : List ℕ) (b b' : ScanBoard) : Type 0 where
  hub_kept : b'.hub ≡ b.hub
  runs_kept : b'.next_runs ≡ b.next_runs
  others : (j : String) → delete b'.progress host j ≡ delete b.progress host j
  told : b'.messages ≡ map (λ n. scan_progress host n all) ns ++ b.messages

report_all-Reported :
    (host : String) (all : ℕ) (ns : List ℕ) (b : ScanBoard)
    → Reported host all ns b (report_all host all ns b)
unfolding report_all report_progress
report_all-Reported host all [] b = record {
  hub_kept = refl;
  runs_kept = refl;
  others = λ j. refl;
  told = refl;
}
report_all-Reported host all (n ∷ ns) b =
    let h = report_all-Reported host all ns b in
    record {
      hub_kept = h.hub_kept;
      runs_kept = h.runs_kept;
      others = λ j. ground (arith, h.others j);
      told = rw (h.told) refl;
    }

all_ports :
    (n : ℕ) → let c = with_defaults (scanner_of n) in (total c ≡ 65_535) × (c.port_start ≡ 1)
unfolding with_defaults scanner_of
all_ports n = (refl, refl)

abbrev started : SecurityTarget → ScanBoard → ScanBoard
started target b = record b { messages = scan_start target.host 65_535 ∷ b.messages }

module _ (range : List ℕ → List ℕ) (target : SecurityTarget) (now : ℕ) where
  executed :
      (n : ℕ) (answers : ℕ → Bool) (es : List ScanEvent) (b b' : ScanBoard) (ports reports : List ℕ)
      → scan (scanner_of n) answers es ≡ some (ports, reports)
      → execute_security_scan range target n answers es now b ≡ some b'
      → b'
        ≡ complete range target ports now (
            report_all target.host
              (total (with_defaults (scanner_of n)))
              reports
              (started target b))
  unfolding execute_security_scan
  executed n answers es b b' ports reports done e = ground (arith, done, e)

  complete-told :
      (ports : List ℕ) (b : ScanBoard)
      → let after = complete range target ports now b in
        let result = process_scan_result range target ports now b.hub in
        (after.hub ≡ result.1)
        × (after.progress ≡ delete b.progress target.host)
        × (after.next_runs ≡ b.next_runs)
        × (after.messages
            ≡ scan_complete target.host now ports (length result.0.0) (length result.0.1)
              ∷ b.messages)
  unfolding complete
  complete-told ports b = (refl, refl, refl, refl)

-- However the goroutines of a scan are scheduled until it is finished: the tables, the alerts and the
-- drift are those of processScanResult on the ports from 1 to 65535 that answer, tried one by one;
-- the target has no progress any more, and the other targets theirs; the times of the next runs stay;
-- and the messages are the start, reports of at most 65535 ports, and the end with those ports.
pub execute_in_any_order :
    (range : List ℕ → List ℕ) (target : SecurityTarget) (scan_concurrency : ℕ) (answers : ℕ → Bool)
    (es : List ScanEvent) (now : ℕ) (b b' : ScanBoard)
    → execute_security_scan range target scan_concurrency answers es now b ≡ some b'
    → let found = answering answers 65_535 1 in
      let result = process_scan_result range target found now b.hub in
      (b'.hub ≡ result.1)
      × ((j : String) → b'.progress j ≡ delete b.progress target.host j)
      × (b'.next_runs ≡ b.next_runs)
      × ((reports : List ℕ) × All (λ n. n ≤ 65_535) reports
          × (b'.messages
              ≡ scan_complete target.host now found (length result.0.0) (length result.0.1)
                ∷ (map (λ n. scan_progress target.host n 65_535) reports
                    ++ (scan_start target.host 65_535 ∷ b.messages))))
execute_in_any_order range target scan_concurrency answers es now b b' e =
    elim (Option-cases (scan (scanner_of scan_concurrency) answers es)) [
      | inl unfinished ↦ absurd (unfold execute_security_scan in ground (arith, e, unfinished))
      | inr ((ports, reports), done) ↦
          let (all, first) = all_ports scan_concurrency in
          let found : ports ≡ answering answers 65_535 1 =
            rw (all, first) at
              (scanned_ports (scanner_of scan_concurrency) answers es ports reports done) in
          let bounded : All (λ n. n ≤ 65_535) reports =
            rw all at (reports_le (scanner_of scan_concurrency) answers es ports reports done) in
          let h = report_all-Reported target.host 65_535 reports (started target b) in
          let ended =
            rw (all, found) at
              (executed range target now scan_concurrency answers es b b' ports reports done e) in
          let (hub, progress, runs, messages) =
            complete-told range target now (answering answers 65_535 1)
              (report_all target.host 65_535 reports (started target b)) in
          (
            rw (ended, hub, h.hub_kept) refl,
            λ j. rw (ended, progress, h.others j) refl,
            rw (ended, runs, h.runs_kept) refl,
            (reports, bounded, rw (ended, messages, h.told, h.hub_kept) refl),
          )
    ]
