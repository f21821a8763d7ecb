-- ===== src/Hub/Consistency.antt =====
-- internal/hub/hub.go: the incident table agrees with the monitors' states.
use whatsupp.Base.{
  ℕ, ◌+◌, ◌≡◌, refl, String, Bool, true, false, ◌∷◌, none, some, arith, str_eq, eq_iff,
  Option-cases, Bool-cases, inl, inr, map, insert,
}
use whatsupp.Monitor.{
  CheckResult, MonitorState, is_down, Transition, stay, to_down, to_up, record_result,
}
use whatsupp.Alerting.{Cause, check_error}
use whatsupp.Store.{Store, Incident, resolve_row, open_of, fresh_id}
use whatsupp.Store.Incidents.{
  open_count, Below, Below-create, Below-fresh_id, Below-resolve, open_of-none,
  open_count-resolve_found,
}
use whatsupp.Incidents.{handle_transition}
use whatsupp.Hub.{Hub, Times, process_known, store_result, process_result}

abbrev pub NeverFails : Store → Type 0
NeverFails s = (n : ℕ) → s.fails n ≡ false

abbrev pub as_count : Bool → ℕ
as_count true = 1
as_count false = 0

-- Statements that do not fail, one by one.
module _ (s : Store) (ok : NeverFails s) (monitor : String) (at : ℕ) (cause : Cause) where
  pub handle_to_down :
      (handle_transition monitor to_down at cause s).1.tables.incidents
      ≡ record {
        id = fresh_id s.tables.incidents;
        monitor = monitor;
        started_at = at;
        resolved_at = none;
        cause = cause;
      }
        ∷ s.tables.incidents
  unfolding handle_transition
  handle_to_down = ground (arith, ok s.calls)

  handle_to_up_none :
      open_of monitor s.tables.incidents ≡ none
      → (handle_transition monitor to_up at cause s).1.tables.incidents ≡ s.tables.incidents
  unfolding handle_transition
  handle_to_up_none e = ground (arith, ok s.calls)

  handle_to_up_some :
      (r : Incident)
      → open_of monitor s.tables.incidents ≡ some r
      → (handle_transition monitor to_up at cause s).1.tables.incidents
        ≡ map (resolve_row r.id at) s.tables.incidents
  unfolding handle_transition
  handle_to_up_some r e = ground (arith, ok s.calls, ok (s.calls + 1))

pub fails-handle :
    (monitor : String) (t : Transition) (at : ℕ) (cause : Cause) (s : Store)
    → (handle_transition monitor t at cause s).1.fails ≡ s.fails
unfolding handle_transition
fails-handle monitor stay at cause s = refl
fails-handle monitor to_down at cause s = ground arith
fails-handle monitor to_up at cause s =
    ground (arith, Option-cases (open_of monitor s.tables.incidents))

-- A known monitor has one open incident if it is DOWN and none if it is UP; the ids are distinct.
pub record Consistent (h : Hub) : Type 0 where
  pub never_fails : NeverFails h.store
  pub ids : Below (fresh_id h.store.tables.incidents) h.store.tables.incidents
  pub counts :
      (m : String) (ms : MonitorState)
      → h.monitor_states m ≡ some ms
      → open_count m h.store.tables.incidents ≡ as_count (is_down ms.status)

-- How a transition relates the numbers of open incidents before and after it.
abbrev Moves : Transition → Bool → Bool → Type 0
Moves stay before now = now ≡ before
Moves to_down before now = (before ≡ false) × (now ≡ true)
Moves to_up before now = (before ≡ true) × (now ≡ false)

record_result-Moves :
    (ms : MonitorState) (r : CheckResult)
    → Moves (record_result ms r).1 (is_down ms.status) (is_down (record_result ms r).0.status)
unfolding record_result
record_result-Moves ms r = ground arith

record Handled (monitor : String) (now : Bool) (s s' : Store) : Type 0 where
  ids : Below (fresh_id s'.tables.incidents) s'.tables.incidents
  own : open_count monitor s'.tables.incidents ≡ as_count now
  others :
      (j : String)
      → str_eq monitor j ≡ false
      → open_count j s'.tables.incidents ≡ open_count j s.tables.incidents

handle-Handled :
    (monitor : String) (t : Transition) (before now : Bool) (at : ℕ) (cause : Cause) (s : Store)
    → NeverFails s
    → Below (fresh_id s.tables.incidents) s.tables.incidents
    → open_count monitor s.tables.incidents ≡ as_count before
    → Moves t before now
    → Handled monitor now s (handle_transition monitor t at cause s).1
handle-Handled monitor stay before now at cause s ok ids e mv =
    unfold handle_transition in
    record { ids = ids; own = ground (arith, e, mv); others = λ j ne. refl }
handle-Handled monitor to_down before now at cause s ok ids e mv =
    let rows = handle_to_down s ok monitor at cause in
    record {
      ids = rw rows (Below-create _ s.tables.incidents refl ids);
      own = rw rows (ground (arith, eq_iff monitor monitor));
      others = λ j ne. rw rows (ground arith);
    }
handle-Handled monitor to_up before now at cause s ok ids e mv =
    elim (Option-cases (open_of monitor s.tables.incidents)) [
      | inl gone ↦ absurd (ground (arith, open_of-none monitor s.tables.incidents gone))
      | inr (r, found) ↦
          let rows = handle_to_up_some s ok monitor at cause r found in
          let counted = λ (j : String).
            open_count-resolve_found _ at monitor j r s.tables.incidents ids found in
          record {
            ids = rw rows (Below-fresh_id _ _ (Below-resolve _ r.id at s.tables.incidents ids));
            own = rw rows (ground (arith, counted monitor, eq_iff monitor monitor));
            others = λ j ne. rw rows (ground (arith, counted j));
          }
    ]

-- Alerts and broadcasts touch neither the store nor the monitors' states.
pub process_known-store :
    (times : Times) (r : CheckResult) (ms : MonitorState) (h : Hub)
    → (process_known times r ms h).store
      ≡ (handle_transition r.monitor
          (record_result ms r).1
          times.received
          (check_error r.error)
          h.store).1
unfolding process_known
process_known-store times r ms h = ground arith

pub process_known-states :
    (times : Times) (r : CheckResult) (ms : MonitorState) (h : Hub)
    → (process_known times r ms h).monitor_states
      ≡ insert h.monitor_states r.monitor (record_result ms r).0
unfolding process_known
process_known-states times r ms h = ground arith

process_known-Consistent :
    (times : Times) (r : CheckResult) (ms : MonitorState) (h : Hub)
    → h.monitor_states r.monitor ≡ some ms
    → Consistent h
    → Consistent (process_known times r ms h)
process_known-Consistent times r ms h known c =
    let handled =
      handle-Handled r.monitor (record_result ms r).1 (is_down ms.status)
        (is_down (record_result ms r).0.status) times.received (check_error r.error) h.store
        c.never_fails c.ids (c.counts r.monitor ms known) (record_result-Moves ms r) in
    let stored = process_known-store times r ms h in
    record {
      never_fails = λ n. rw (stored, fails-handle) (c.never_fails n);
      ids = rw stored handled.ids;
      counts = λ m ms' e.
          let at_m = rw (process_known-states times r ms h) at e in
          rw stored (elim (Bool-cases (str_eq r.monitor m)) [
            | inl hit ↦ rw (← (eq_iff r.monitor m).0 hit) (ground (arith, handled.own, hit, at_m))
            | inr miss ↦ ground (arith, handled.others m miss, c.counts m ms', at_m)
          ]);
    }

store_result-Consistent :
    (times : Times) (r : CheckResult) (h : Hub) → Consistent h → Consistent (store_result times r h)
unfolding store_result
store_result-Consistent times r h c =
    let e = c.never_fails h.store.calls in
    record {
      never_fails = λ n. ground (arith, c.never_fails n);
      ids = ground (arith, e, c.ids);
      counts = λ m ms known. ground (arith, e, c.counts m ms);
    }

pub process_result-unknown :
    (times : Times) (r : CheckResult) (h : Hub)
    → h.monitor_states r.monitor ≡ none
    → process_result times r h ≡ store_result times r h
unfolding process_result
process_result-unknown times r h e = ground (arith, e)

pub process_result-known :
    (times : Times) (r : CheckResult) (ms : MonitorState) (h : Hub)
    → h.monitor_states r.monitor ≡ some ms
    → process_result times r h ≡ process_known times r ms (store_result times r h)
unfolding process_result
process_result-known times r ms h e = ground (arith, e)

-- With a store whose statements do not fail, processing any result keeps the incident table in
-- agreement with the states: a DOWN monitor has exactly one open incident, an UP one none, and the
-- incidents have distinct ids.
pub process_result-Consistent :
    (times : Times) (r : CheckResult) (h : Hub)
    → Consistent h
    → Consistent (process_result times r h)
process_result-Consistent times r h c = elim (Option-cases (h.monitor_states r.monitor)) [
  | inl gone ↦ rw (process_result-unknown times r h gone) (store_result-Consistent times r h c)
  | inr (ms, known) ↦ rw (process_result-known times r ms h known) (
      process_known-Consistent times r ms (store_result times r h) (unfold store_result in known)
        (store_result-Consistent times r h c))
]
