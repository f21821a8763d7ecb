-- ===== src/Monitor/History.antt =====
-- internal/hub/monitor.go: the state and the last transition as functions of the history.
use mathlib.Core.List.{reverse, reverse-cons}
use whatsupp.Base.{
  ℕ, suc, pos, ◌≤◌, String, ◌≡◌, refl, ◌&&◌, List, [], ◌∷◌, ◌++◌, arith, leb, ◌==◌, if◌then◌else◌,
  length, keep_if,
}
use whatsupp.Monitor.{
  CheckResult, MonitorStatus, up, down, Transition, stay, to_down, to_up, MonitorState,
  new_monitor_state, succeeded, record_result, record_all,
}

-- The failures since the last success; the newest result is the head.
abbrev pub trailing : List CheckResult → ℕ
trailing [] = 0
trailing (r ∷ older) = if succeeded r then 0 else suc (trailing older)

-- The state after the results of `history`, whose head is the newest.
abbrev pub after : String → ℕ → List CheckResult → MonitorState
after name threshold history =
    (record_all (new_monitor_state name (pos threshold)) (reverse history)).0

record_all-append :
    (ms : MonitorState) (rs : List CheckResult) (r : CheckResult)
    → (record_all ms (rs ++ r ∷ [])).0 ≡ (record_result (record_all ms rs).0 r).0
unfolding record_all
record_all-append ms [] r = refl
record_all-append ms (x ∷ rs) r = record_all-append (record_result ms x).0 rs r

after-cons :
    (name : String) (threshold : ℕ) (r : CheckResult) (older : List CheckResult)
    → after name threshold (r ∷ older) ≡ (record_result (after name threshold older) r).0
after-cons name threshold r older =
    rw (after, reverse-cons r older)
      (record_all-append (new_monitor_state name (pos threshold)) (reverse older) r)

pub record Tracks (threshold : ℕ) (history : List CheckResult) (ms : MonitorState) : Type 0 where
  pub threshold_kept : ms.failure_threshold ≡ pos threshold
  pub failures : ms.consecutive_failures ≡ trailing history
  pub status : ms.status ≡ (if leb threshold (trailing history) then down else up)
  pub checks : ms.total_checks ≡ length history
  pub successes : ms.total_up ≡ length (keep_if succeeded history)

Tracks-record_result :
    (threshold : ℕ) (older : List CheckResult) (ms : MonitorState) (r : CheckResult)
    → 1 ≤ threshold
    → Tracks threshold older ms
    → Tracks threshold (r ∷ older) (record_result ms r).0
unfolding record_result
Tracks-record_result threshold older ms r h t = ground arith

-- With a threshold of at least 1 the state of a monitor that has seen a history of results is
-- determined by it: DOWN exactly if the failures since the last success reach the threshold; the
-- failure count, the number of checks and the number of successes are those of the history.
after-Tracks :
    (name : String) (threshold : ℕ) (history : List CheckResult)
    → 1 ≤ threshold
    → Tracks threshold history (after name threshold history)
after-Tracks name threshold [] h = unfold new_monitor_state record_all in ground arith
after-Tracks name threshold (r ∷ older) h =
    rw (after-cons name threshold r older)
      (Tracks-record_result threshold older _ r h (after-Tracks name threshold older h))

transition_of :
    (threshold : ℕ) (older : List CheckResult) (ms : MonitorState) (r : CheckResult)
    → 1 ≤ threshold
    → Tracks threshold older ms
    → (record_result ms r).1 ≡ (
        if trailing (r ∷ older) == threshold
        then to_down
        else if succeeded r && leb threshold (trailing older)
        then to_up
        else stay)
unfolding record_result
transition_of threshold older ms r h t = ground arith

-- With a threshold of at least 1, the transition of a monitor's newest result is to DOWN exactly if
-- that result makes the failures since the last success equal to the threshold, to UP exactly if it
-- is a success after at least that many failures, and none otherwise.
pub transition_by_history :
    (name : String) (threshold : ℕ) (r : CheckResult) (older : List CheckResult)
    → 1 ≤ threshold
    → (record_result (after name threshold older) r).1 ≡ (
        if trailing (r ∷ older) == threshold
        then to_down
        else if succeeded r && leb threshold (trailing older)
        then to_up
        else stay)
transition_by_history name threshold r older h =
    transition_of threshold older _ r h (after-Tracks name threshold older h)

-- Transitions that start from a status alternate: DOWN only when UP, UP only when DOWN.
abbrev pub Alternates : MonitorStatus → List Transition → Type 0
Alternates s [] = Unit
Alternates s (stay ∷ ts) = Alternates s ts
Alternates up (to_down ∷ ts) = Alternates down ts
Alternates up (to_up ∷ ts) = ⊥
Alternates down (to_up ∷ ts) = Alternates up ts
Alternates down (to_down ∷ ts) = ⊥

Alternates-step :
    (ms : MonitorState) (r : CheckResult) (ts : List Transition)
    → Alternates (record_result ms r).0.status ts
    → Alternates ms.status ((record_result ms r).1 ∷ ts)
unfolding record_result
Alternates-step ms r ts h = ground arith

-- From any state and over any results, with any threshold, the transitions alternate, so every
-- incident that a transition to DOWN opens is closed before the next one is opened.
pub record_all-Alternates :
    (ms : MonitorState) (rs : List CheckResult) → Alternates ms.status (record_all ms rs).1
unfolding record_all
record_all-Alternates ms [] = tt
record_all-Alternates ms (r ∷ rs) =
    Alternates-step ms r _ (record_all-Alternates (record_result ms r).0 rs)
