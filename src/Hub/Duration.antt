-- ===== src/Hub/Duration.antt =====
-- internal/hub/hub.go: what formatDuration prints, in seconds.
use whatsupp.Base.{ℕ, ◌+◌, ◌*◌, ◌≤◌, ◌<◌, arith}
use whatsupp.Alerting.{DurationText, unknown, seconds, minus_seconds, minutes, hours}
use whatsupp.Hub.{format_duration}

-- The printed time and the unit of its last field, in seconds.
abbrev pub shown : DurationText → ℕ
shown unknown = 0
shown (seconds s) = s
shown (minus_seconds s) = 0
shown (minutes m s) = m * 60 + s
shown (hours h m) = h * 3600 + m * 60

abbrev pub unit : DurationText → ℕ
unit (hours h m) = 60
unit _ = 1

abbrev pub InRange : DurationText → Type 0
InRange (seconds s) = s < 60
InRange (minutes m s) = (m < 60) × (s < 60)
InRange (hours h m) = m < 60
InRange _ = ⊥

-- A duration is shown with its seconds and minutes below 60, and the shown time is at most the
-- duration and less than one unit of its last field (a second, or a minute from an hour on) below it.
pub format_duration_rounds :
    (d : ℕ)
    → InRange (format_duration d)
      × (shown (format_duration d) * 1_000_000_000 ≤ d)
      × (d < (shown (format_duration d) + unit (format_duration d)) * 1_000_000_000)
unfolding format_duration
format_duration_rounds d = ground arith
