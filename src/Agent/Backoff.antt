-- ===== src/Agent/Backoff.antt =====
-- internal/agent/backoff.go: the throttle on failing collectors. Times and durations are
-- nanoseconds; with both durations below 2 ^ 62 the doubling stays below 2 ^ 63, so nothing wraps.
pub mod Delay
pub mod Runs
use whatsupp.Base.{
  ℕ, zero, suc, ◌+◌, ◌-◌, ◌*◌, String, Bool, true, false, not, ◌||◌, Option, none, some, ltb, leb,
  ◌==◌, if◌then◌else◌, Map, empty_map, insert,
}

pub record BackoffState : Type 0 where
  pub failures : ℕ
  pub retry_at : ℕ

pub record Backoff : Type 0 where
  pub base : ℕ
  pub max : ℕ
  pub state : Map BackoffState

unfoldable pub new_backoff : ℕ → ℕ → Backoff
new_backoff base max = record { base = base; max = max; state = empty_map }

-- The rounds of the loop in `delay`.
unfoldable pub doublings : ℕ → ℕ → ℕ → ℕ
doublings max zero d = d
doublings max (suc rounds) d =
    let rest = doublings max rounds (d * 2) in if leb max (d * 2) then max else rest

unfoldable pub delay : Backoff → ℕ → ℕ
unfolding doublings
delay b failures = doublings b.max (failures - 1) b.base

unfoldable pub may_retry : Option BackoffState → ℕ → Bool
may_retry none now = true
may_retry (some s) now = if s.failures == 0 then true else not (ltb now s.retry_at)

unfoldable pub allow : Backoff → String → ℕ → Bool
unfolding may_retry
allow b name now = may_retry (b.state name) now

-- The state of a name, or a new one.
abbrev pub state_of : Backoff → String → BackoffState
state_of b name = elim (b.state name) [ none ↦ record { failures = 0; retry_at = 0 } | some s ↦ s ]

unfoldable pub failure : Backoff → String → ℕ → Backoff × Bool
failure b name now =
    let s = state_of b name in
    let failures = s.failures + 1 in
    let s' : BackoffState = record { failures = failures; retry_at = now + delay b failures } in
    (record b { state = insert b.state name s' }, s.failures == 0)

unfoldable pub success : Backoff → String → Backoff × Bool
success b name = elim (b.state name) [
  | none ↦ (b, false)
  | some s ↦
      if s.failures == 0
      then (b, false)
      else (record b { state = insert b.state name (record { failures = 0; retry_at = 0 }) }, true)
]
