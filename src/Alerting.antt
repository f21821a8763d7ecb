-- ===== src/Alerting.antt =====
-- internal/alerting/ntfy.go: which alerts are posted. Times and intervals are nanoseconds. The texts
-- of the messages and the POST itself are left out: an alert is what the message is made from.
pub mod Spacing
use whatsupp.Base.{
  ℕ, ℤ, ◌+◌, String, Bool, true, false, ◌&&◌, Option, none, some, ltb, ◌==◌, if◌then◌else◌, Map,
  empty_map, insert, delete, pos, eq_int, pos_part, neg_part,
}

-- Why a monitor is down: the error of a check, the same with the failures in a row, or an agent that
-- has sent nothing for some time.
pub data Cause : Type 0 where
  check_error : String → Cause
  failures_in_row : String → ℤ → Cause
  no_metrics : String → ℕ → Cause

-- The texts of formatDuration (internal/hub/hub.go), by their numbers.
pub data DurationText : Type 0 where
  unknown : DurationText
  seconds minus_seconds : ℕ → DurationText
  minutes hours : ℕ → ℕ → DurationText

pub data Alert : Type 0 where
  monitor_down : String → Cause → Alert
  monitor_up : String → DurationText → Alert
  new_port : String → ℕ → Alert
  port_gone : String → ℕ → Alert
  ssl_expiry : String → ℤ → Alert
  test : Alert

unfoldable pub priority : Alert → ℕ
priority (monitor_down monitor cause) = 4
priority (monitor_up monitor duration) = 3
priority (new_port target port) = 5
priority (port_gone target port) = 4
priority (ssl_expiry domain days) = 4
priority test = 3

pub record NtfyClient : Type 0 where
  pub reminder_interval : ℤ
  pub last_down_alert : Map ℕ
  pub muted : Map Bool

abbrev pub hour : ℕ
hour = 3_600_000_000_000

unfoldable pub new_ntfy_client : ℤ → NtfyClient
new_ntfy_client interval = record {
  reminder_interval = if eq_int interval (pos 0) then pos hour else interval;
  last_down_alert = empty_map;
  muted = empty_map;
}

unfoldable pub set_muted : NtfyClient → Map Bool → NtfyClient
set_muted n muted = record n { muted = muted }

-- A missing key reads as false.
unfoldable pub is_muted : NtfyClient → String → Bool
is_muted n name = elim (n.muted name) [ none ↦ false | some b ↦ b ]

unfoldable pub mute : NtfyClient → String → NtfyClient
mute n name = record n { muted = insert n.muted name true }

unfoldable pub unmute : NtfyClient → String → NtfyClient
unmute n name = record n { muted = delete n.muted name }

-- `exists && now.Sub(lastSent) < interval`
unfoldable pub is_recent : Option ℕ → ℕ → ℤ → Bool
is_recent none now interval = false
is_recent (some last_sent) now interval =
    ltb (now + neg_part interval) (last_sent + pos_part interval)

unfoldable pub send_down : NtfyClient → ℕ → String → Cause → NtfyClient × Option Alert
unfolding is_muted is_recent
send_down n now monitor cause =
    if is_muted n monitor
    then (n, none)
    else if is_recent (n.last_down_alert monitor) now n.reminder_interval
    then (n, none)
    else (
      record n { last_down_alert = insert n.last_down_alert monitor now },
      some (monitor_down monitor cause),
    )

unfoldable pub send_recovery : NtfyClient → String → DurationText → NtfyClient × Option Alert
unfolding is_muted
send_recovery n monitor duration = (
  record n { last_down_alert = delete n.last_down_alert monitor },
  if is_muted n monitor then none else some (monitor_up monitor duration),
)

unfoldable pub send_new_port : NtfyClient → String → ℕ → Option Alert
send_new_port n target port = some (new_port target port)

unfoldable pub send_port_gone : NtfyClient → String → ℕ → Option Alert
send_port_gone n target port = some (port_gone target port)

unfoldable pub send_ssl_expiry : NtfyClient → String → ℤ → Option Alert
unfolding is_muted
send_ssl_expiry n domain days = if is_muted n domain then none else some (ssl_expiry domain days)
