-- ===== src/Hub/Failures.antt =====
-- internal/hub/hub.go, internal/store/queries.go: the failures in a row that the database counts for
-- a monitor, and the ones that its state counts.
use whatsupp.Base.{
  ℕ, suc, ◌≤◌, ◌≡◌, refl, ap, ◌⊎◌, inl, inr, String, List, [], ◌∷◌, some, arith, str_eq, eq_iff,
  min, Bool-cases, Option-cases, if◌then◌else◌,
}
use whatsupp.Monitor.{CheckResult, MonitorState, record_result, Transition, stay, to_down, to_up}
use whatsupp.Alerting.{Cause}
use whatsupp.Incidents.{handle_transition}
use whatsupp.Store.{CheckRow, Store, open_of}
use whatsupp.Store.Failures.{
  rows_of, leading_down, UpTo, Descending, count_consecutive_failures, count-Descending,
}
use whatsupp.Hub.{Hub, Times, process_result, store_result}
use whatsupp.Hub.Consistency.{
  NeverFails, fails-handle, process_known-store, process_known-states, process_result-unknown,
  process_result-known,
}
use whatsupp.Hub.Silence.{process_all}

abbrev row_of : Times → CheckResult → CheckRow
row_of t r = record {
  monitor = r.monitor;
  timestamp = t.received;
  status = r.status;
  latency_us = r.latency_us;
  metadata = r.metadata;
}

-- The results come in the order of their times, from a time on, each of them "up" or "down".
abbrev pub InOrder : ℕ → List (Times × CheckResult) → Type 0
InOrder since [] = Unit
InOrder since ((t, r) ∷ rs) =
    (since ≤ t.received) × ((r.status ≡ "up") ⊎ (r.status ≡ "down")) × InOrder t.received rs

record Recorded (name : String) (since : ℕ) (ms : MonitorState) (h : Hub) : Type 0 where
  never_fails : NeverFails h.store
  known : h.monitor_states name ≡ some ms
  upto : UpTo since h.store.tables.check_results
  descending : Descending h.store.tables.check_results
  count : leading_down (rows_of name h.store.tables.check_results) ≡ ms.consecutive_failures

UpTo-later : (s t : ℕ) (rows : List CheckRow) → s ≤ t → UpTo s rows → UpTo t rows
UpTo-later s t [] le h = tt
UpTo-later s t (r ∷ rows) le (first, rest) = (omega arith, UpTo-later s t rows le rest)

-- What processing does to the table and the states.
module _ (t : Times) (r : CheckResult) (h : Hub) (ok : NeverFails h.store) where
  store_result-rows :
      ((store_result t r h).store.tables.check_results ≡ row_of t r ∷ h.store.tables.check_results)
      × ((store_result t r h).store.fails ≡ h.store.fails)
      × ((store_result t r h).monitor_states ≡ h.monitor_states)
  unfolding store_result
  store_result-rows = ground (arith, ok h.store.calls)

rows-handle :
    (monitor : String) (t : Transition) (at : ℕ) (cause : Cause) (s : Store)
    → (handle_transition monitor t at cause s).1.tables.check_results ≡ s.tables.check_results
unfolding handle_transition
rows-handle monitor stay at cause s = refl
rows-handle monitor to_down at cause s = ground arith
rows-handle monitor to_up at cause s =
    ground (arith, Option-cases (open_of monitor s.tables.incidents))

process_result-rows :
    (t : Times) (r : CheckResult) (h : Hub)
    → NeverFails h.store
    → ((process_result t r h).store.tables.check_results
        ≡ row_of t r ∷ h.store.tables.check_results)
      × ((process_result t r h).store.fails ≡ h.store.fails)
process_result-rows t r h ok =
    let (rows, fails, states) = store_result-rows t r h ok in
    elim (Option-cases (h.monitor_states r.monitor)) [
      | inl gone ↦ rw (process_result-unknown t r h gone) (rows, fails)
      | inr (ms, known) ↦
          rw
            (
              process_result-known t r ms h known,
              process_known-store t r ms (store_result t r h),
              rows-handle,
              fails-handle,
            )
            (rows, fails)
    ]

-- The state of the monitor after the result, if it is one of it.
after : String → MonitorState → CheckResult → MonitorState
after name ms r = if str_eq r.monitor name then (record_result ms r).0 else ms

process_result-state :
    (t : Times) (r : CheckResult) (name : String) (ms : MonitorState) (h : Hub)
    → NeverFails h.store
    → h.monitor_states name ≡ some ms
    → (process_result t r h).monitor_states name ≡ some (after name ms r)
unfolding after
process_result-state t r name ms h ok known =
    let (rows, fails, states) = store_result-rows t r h ok in
    elim (Option-cases (h.monitor_states r.monitor)) [
      | inl gone ↦
          rw (process_result-unknown t r h gone, states)
            (ground (arith, eq_iff r.monitor name, known, gone))
      | inr (q, found) ↦
          rw
            (
              process_result-known t r q h found,
              process_known-states t r q (store_result t r h),
              states,
            )
            (elim (Bool-cases (str_eq r.monitor name)) [
              | inl hit ↦
                  let same : q ≡ ms = ground (arith, (eq_iff r.monitor name).0 hit, found, known) in
                  rw (hit, same) refl
              | inr miss ↦ rw miss known
            ])
    ]

counted_failures :
    (ms : MonitorState) (r : CheckResult)
    → (r.status ≡ "up") ⊎ (r.status ≡ "down")
    → (record_result ms r).0.consecutive_failures
      ≡ (if str_eq r.status "down" then suc ms.consecutive_failures else 0)
unfolding record_result
counted_failures ms r (inl up) = rw up (ground arith)
counted_failures ms r (inr down) = rw down (ground arith)

count-record_result :
    (t : Times) (name : String) (ms : MonitorState) (r : CheckResult) (rows : List CheckRow)
    → (r.status ≡ "up") ⊎ (r.status ≡ "down")
    → leading_down (rows_of name rows) ≡ ms.consecutive_failures
    → leading_down (rows_of name (row_of t r ∷ rows)) ≡ (after name ms r).consecutive_failures
unfolding after leading_down
count-record_result t name ms r rows status e = elim (Bool-cases (str_eq r.monitor name)) [
  | inl hit ↦ rw (hit, e, counted_failures ms r status) refl
  | inr miss ↦ rw miss e
]

step-Recorded :
    (t : Times) (r : CheckResult) (name : String) (since : ℕ) (ms : MonitorState) (h : Hub)
    → since ≤ t.received
    → (r.status ≡ "up") ⊎ (r.status ≡ "down")
    → Recorded name since ms h
    → Recorded name t.received (after name ms r) (process_result t r h)
step-Recorded t r name since ms h le status c =
    let (rows, fails) = process_result-rows t r h c.never_fails in
    let earlier = UpTo-later since t.received h.store.tables.check_results le c.upto in
    record {
      never_fails = λ n. rw fails (c.never_fails n);
      known = process_result-state t r name ms h c.never_fails c.known;
      upto = rw rows (omega arith, earlier);
      descending = rw rows (earlier, c.descending);
      count = rw rows (count-record_result t name ms r h.store.tables.check_results status c.count);
    }

all-Recorded :
    (name : String) (rs : List (Times × CheckResult)) (since : ℕ) (ms : MonitorState) (h : Hub)
    → InOrder since rs
    → Recorded name since ms h
    → (last : MonitorState) × (until : ℕ) × Recorded name until last (process_all rs h)
all-Recorded name [] since ms h ordered c = (ms, since, c)
all-Recorded name ((t, r) ∷ rs) since ms h (le, status, ordered) c =
    all-Recorded name rs t.received (after name ms r) (process_result t r h) ordered
      (step-Recorded t r name since ms h le status c)

count-Recorded :
    (name : String) (since : ℕ) (ms : MonitorState) (h : Hub)
    → Recorded name since ms h
    → (count_consecutive_failures name h.store).0 ≡ some (min 100 ms.consecutive_failures)
unfolding count_consecutive_failures
count-Recorded name since ms h c =
    rw (c.never_fails h.store.calls)
      (ap some (rw (count-Descending name h.store.tables.check_results c.descending, c.count) refl))

-- From an empty table of results and a monitor without failures, with statements that do not fail and
-- results of any monitors that are "up" or "down" and come in the order of their times, the
-- failures in a row that the database counts for the monitor are the ones of its state, or 100 if
-- there are more.
pub count_consecutive_failures-process_all :
    (name : String) (rs : List (Times × CheckResult)) (ms : MonitorState) (h : Hub)
    → NeverFails h.store
    → h.store.tables.check_results ≡ []
    → h.monitor_states name ≡ some ms
    → ms.consecutive_failures ≡ 0
    → InOrder 0 rs
    → let h' = process_all rs h in
      (last : MonitorState) × (h'.monitor_states name ≡ some last)
      × ((count_consecutive_failures name h'.store).0 ≡ some (min 100 last.consecutive_failures))
count_consecutive_failures-process_all name rs ms h ok empty known zeroed ordered =
    let start : Recorded name 0 ms h = record {
      never_fails = ok;
      known = known;
      upto = rw empty tt;
      descending = rw empty tt;
      count = rw (empty, zeroed) (unfold leading_down in refl);
    } in
    let (last, until, c) = all-Recorded name rs 0 ms h ordered start in
    (last, c.known, count-Recorded name until last (process_all rs h) c)
