-- ===== src/Examples/Checks.antt =====
-- internal/hub/monitor.go, internal/alerting/ntfy.go: a monitor with three results, and a client
-- with four calls.
use whatsupp.Base.{
  ◌≡◌, ◌&&◌, true, List, [], ◌∷◌, arith, leb, ◌==◌, if◌then◌else◌, insert, empty_map, pos,
}
use whatsupp.Monitor.{
  CheckResult, no_metadata, MonitorState, down, stay, to_down, to_up, succeeded, record_result,
}
use whatsupp.Monitor.History.{trailing, after, transition_by_history}
use whatsupp.Alerting.{NtfyClient, check_error, seconds, new_ntfy_client}
use whatsupp.Alerting.Spacing.{Call, down_at, recovers, mutes, run, Spaced, run-Spaced}

abbrev pub passed : CheckResult
passed = record {
  monitor = "web";
  status = "up";
  latency_us = 900;
  metadata = no_metadata;
  error = "";
}

abbrev pub timed_out : CheckResult
timed_out = record {
  monitor = "web";
  status = "down";
  latency_us = 0;
  metadata = no_metadata;
  error = "timeout";
}

-- Newest first.
abbrev history : List CheckResult
history = timed_out ∷ timed_out ∷ passed ∷ []

transition_by_history_example :
    (record_result (after "web" 2 (timed_out ∷ passed ∷ [])) timed_out).1 ≡ (
      if trailing history == 2
      then to_down
      else if succeeded timed_out && leb 2 (trailing (timed_out ∷ passed ∷ []))
      then to_up
      else stay)
transition_by_history_example =
    transition_by_history "web" 2 timed_out (timed_out ∷ passed ∷ []) (omega arith)

abbrev failing_once : MonitorState
failing_once = record {
  name = "web";
  status = down;
  failure_threshold = pos 2;
  consecutive_failures = 3;
  last_error = "timeout";
  total_checks = 7;
  total_up = 4;
}

abbrev calls : List Call
calls =
    down_at 100 "web" (check_error "timeout")
    ∷ mutes "db"
    ∷ down_at 150 "web" (check_error "timeout")
    ∷ recovers "web" (seconds 20)
    ∷ down_at 180 "web" (check_error "timeout")
    ∷ []

run-Spaced_example : Spaced (pos 60) (run (new_ntfy_client (pos 60), []) calls).1
run-Spaced_example = run-Spaced (pos 60) calls (ground arith)

abbrev muting : NtfyClient
muting = record {
  reminder_interval = pos 60;
  last_down_alert = insert empty_map "web" 100;
  muted = insert empty_map "web" true;
}
