-- ===== src/Agent/Backoff/Runs.antt =====
-- internal/agent/backoff.go: the throttle as a function of the outcomes so far.
use whatsupp.Base.{
  ℕ, suc, ◌+◌, ◌≡◌, refl, String, not, List, [], ◌∷◌, Option, none, some, arith, leb, ◌==◌, str_eq,
  eq_iff, if◌then◌else◌, length,
}
use whatsupp.Agent.Backoff.{
  BackoffState, Backoff, new_backoff, delay, may_retry, allow, failure, success,
}

-- What a collector reported: a failure with its time, or a success.
pub data Outcome : Type 0 where
  failed : String → ℕ → Outcome
  succeeded : String → Outcome

abbrev pub report : Backoff → Outcome → Backoff
report b (failed name now) = (failure b name now).0
report b (succeeded name) = (success b name).0

-- The throttle after a history of outcomes, whose head is the newest.
abbrev pub after : Backoff → List Outcome → Backoff
after b [] = b
after b (o ∷ older) = report (after b older) o

-- The times of the failures of a collector since its last success, newest first.
abbrev pub run_of : String → List Outcome → List ℕ
run_of name [] = []
run_of name (failed other now ∷ older) =
    let rest = run_of name older in if str_eq other name then now ∷ rest else rest
run_of name (succeeded other ∷ older) =
    let rest = run_of name older in if str_eq other name then [] else rest

-- When a collector with these failures is tried again.
abbrev pub retry_time : Backoff → List ℕ → ℕ
retry_time b [] = 0
retry_time b (now ∷ older) = now + delay b (suc (length older))

abbrev Agrees : Backoff → List ℕ → Option BackoffState → Type 0
Agrees b run none = run ≡ []
Agrees b run (some s) = (s.failures ≡ length run) × (s.retry_at ≡ retry_time b run)

report-fixed :
    (b : Backoff) (o : Outcome) → ((report b o).base ≡ b.base) × ((report b o).max ≡ b.max)
unfolding failure success
report-fixed b (failed name now) = (refl, refl)
report-fixed b (succeeded name) = ground arith

after-fixed :
    (b : Backoff) (history : List Outcome)
    → ((after b history).base ≡ b.base) × ((after b history).max ≡ b.max)
after-fixed b [] = (refl, refl)
after-fixed b (o ∷ older) = ground (arith, after-fixed b older, report-fixed (after b older) o)

delay-fixed : (b : Backoff) (history : List Outcome) (n : ℕ) → delay (after b history) n ≡ delay b n
unfolding delay
delay-fixed b history n = ground (arith, after-fixed b history)

Agrees-report :
    (b : Backoff) (older : List Outcome) (o : Outcome) (name : String)
    → Agrees b (run_of name older) ((after b older).state name)
    → Agrees b (run_of name (o ∷ older)) ((after b (o ∷ older)).state name)
unfolding failure success
Agrees-report b older (failed other now) name h =
    ground (arith, eq_iff other name, delay-fixed b older (suc (length (run_of name older))))
Agrees-report b older (succeeded other) name h = ground (arith, eq_iff other name)

after-Agrees :
    (base max : ℕ) (history : List Outcome) (name : String)
    → Agrees
        (new_backoff base max)
        (run_of name history)
        ((after (new_backoff base max) history).state name)
unfolding new_backoff
after-Agrees base max [] name = refl
after-Agrees base max (o ∷ older) name =
    Agrees-report (new_backoff base max) older o name (after-Agrees base max older name)

may_retry-Agrees :
    (b : Backoff) (run : List ℕ) (o : Option BackoffState) (now : ℕ)
    → Agrees b run o
    → may_retry o now ≡ leb (retry_time b run) now
unfolding may_retry
may_retry-Agrees b [] none now h = ground arith
may_retry-Agrees b [] (some s) now h = ground arith
may_retry-Agrees b (t ∷ older) none now h = cc
may_retry-Agrees b (t ∷ older) (some s) now h = ground arith

-- Whatever outcomes of whatever collectors a new throttle has seen, a collector is tried again
-- exactly from the time of its last failure plus the delay for its failures since its last success
-- on, and at any time if there are none.
pub allow_by_history :
    (base max : ℕ) (history : List Outcome) (name : String) (now : ℕ)
    → allow (after (new_backoff base max) history) name now
      ≡ leb (retry_time (new_backoff base max) (run_of name history)) now
unfolding allow
allow_by_history base max history name now =
    may_retry-Agrees _ (run_of name history) _ now (after-Agrees base max history name)

-- Whatever outcomes of whatever collectors a new throttle has seen, a failure is logged exactly if
-- the collector has not failed since its last success, and a success exactly if it has.
pub logged_by_history :
    (base max : ℕ) (history : List Outcome) (name : String) (now : ℕ)
    → let b = after (new_backoff base max) history in
      ((failure b name now).1 ≡ (length (run_of name history) == 0))
      × ((success b name).1 ≡ not (length (run_of name history) == 0))
unfolding failure success
logged_by_history base max history name now = ground (arith, after-Agrees base max history name)
