-- ===== src/Cron.antt =====
-- internal/hub/cron.go: the search for the next minute at which a schedule fires. Times are
-- nanoseconds since the zero time; the calendar of the time zone is a parameter, by the minute. The
-- five parsed fields are sets of numbers.
pub mod Next
pub mod Text
pub mod Fields
use whatsupp.Base.{
  ℕ, zero, suc, ◌+◌, ◌*◌, ◌/◌, Bool, true, false, ◌&&◌, Option, none, some, ltb, if◌then◌else◌,
}

abbrev pub minute : ℕ
minute = 60_000_000_000

-- The fields of the minute with a given number.
pub record Calendar : Type 0 where
  pub month : ℕ → ℕ
  pub day : ℕ → ℕ
  pub weekday : ℕ → ℕ
  pub hour : ℕ → ℕ
  pub minute_of_hour : ℕ → ℕ

pub record Schedule : Type 0 where
  pub minute_set : ℕ → Bool
  pub hour_set : ℕ → Bool
  pub dom_set : ℕ → Bool
  pub month_set : ℕ → Bool
  pub dow_set : ℕ → Bool

unfoldable pub fires : Calendar → Schedule → ℕ → Bool
fires cal s n =
    s.month_set (cal.month n)
    && s.dom_set (cal.day n)
    && s.dow_set (cal.weekday n)
    && s.hour_set (cal.hour n)
    && s.minute_set (cal.minute_of_hour n)

-- The loop: `t` is the minute numbered `n`.
unfoldable pub scan_minutes : Calendar → Schedule → ℕ → ℕ → ℕ → Option ℕ
unfolding fires
scan_minutes cal s limit zero n = none
scan_minutes cal s limit (suc fuel) n =
    let rest = scan_minutes cal s limit fuel (n + 1) in
    if ltb (n * minute) limit then (if fires cal s n then some n else rest) else none

-- The minutes of 366 days.
abbrev pub horizon : ℕ
horizon = 527_040

-- The number of the minute, if the schedule fires within 366 days.
unfoldable pub next_cron_time : Calendar → Schedule → ℕ → Option ℕ
next_cron_time cal s after =
    scan_minutes cal s (after + horizon * minute) (horizon + 1) (after / minute + 1)
