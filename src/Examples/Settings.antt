-- ===== src/Examples/Settings.antt =====
-- internal/config/config.go, internal/hub/cron.go: a configuration of two monitors, and a schedule.
use whatsupp.Base.{◌≤◌, length, refl, true, false, [], ◌∷◌, ◌%◌, ◌==◌, ◌/◌, pos, negsuc}
use whatsupp.Config.{Monitor, Config, apply_defaults, load}
use whatsupp.Config.Validation.{Completions, load-Completions}
use whatsupp.Scheduler.{checking, checked, received, tick, stopped, run_monitor}
use whatsupp.Scheduler.Runs.{OfMonitor, run_monitor_lem}
use whatsupp.Examples.Checks.{passed, timed_out}
use whatsupp.Cron.{Calendar, Schedule, next_cron_time}
use whatsupp.Cron.Next.{IsNext, next_cron_time-IsNext}

abbrev web : Monitor
web = record {
  name = "web";
  type = "http";
  url = "https://example.org";
  host = "";
  port = pos 0;
  query = "";
  group = "";
  interval = pos 0;
  failure_threshold = pos 0;
  insecure_skip_verify = false;
}

abbrev resolver : Monitor
resolver = record {
  name = "resolver";
  type = "dns";
  url = "";
  host = "example.org";
  port = pos 0;
  query = "";
  group = "";
  interval = pos 0;
  failure_threshold = pos 5;
  insecure_skip_verify = false;
}

abbrev pub config : Config
config = record {
  server = record { listen = ""; db_path = "" };
  monitors = web ∷ resolver ∷ [];
  targets =
      record {
        host = "nas";
        schedule = "0 3 * * *";
        scan_concurrency = pos 0;
        timeout = pos 0;
        alert_hysteresis = pos 0;
      }
      ∷ [];
  default_failure_threshold = pos 0;
  thresholds = record {
    ssl_expiry_days = [];
    disk_usage_pct = pos 0;
    disk_hysteresis_pct = pos 0;
    down_reminder_interval = pos 0;
  };
}

-- A threshold and an interval of -2 in the file.
abbrev eager : Config
eager = record config {
  monitors = record web { interval = negsuc 1; failure_threshold = negsuc 1 } ∷ resolver ∷ [];
}

load-Completions_example :
    Completions
      (pos 3)
      (record web { interval = negsuc 1; failure_threshold = negsuc 1 } ∷ resolver ∷ [])
      (apply_defaults eager).monitors
load-Completions_example = load-Completions eager (apply_defaults eager) (unfold load in refl)

run_monitor_lem_example :
    (let sent =
        (run_monitor
          (record { monitor = web; phase = checking })
          []
          (checked timed_out ∷ received ∷ tick ∷ checked passed ∷ stopped ∷ [])).1 in
      OfMonitor "web" sent × (length sent ≤ 2))
run_monitor_lem_example =
    run_monitor_lem web (checked timed_out ∷ received ∷ tick ∷ checked passed ∷ stopped ∷ [])

-- A calendar of days without months, and the schedule `30 3 * * *`.
abbrev calendar : Calendar
calendar = record {
  month = λ n. 1;
  day = λ n. 1;
  weekday = λ n. n / 1440 % 7;
  hour = λ n. n / 60 % 24;
  minute_of_hour = λ n. n % 60;
}

abbrev nightly : Schedule
nightly = record {
  minute_set = λ k. k == 30;
  hour_set = λ k. k == 3;
  dom_set = λ k. true;
  month_set = λ k. true;
  dow_set = λ k. true;
}

next_cron_time-IsNext_example :
    IsNext calendar nightly 7_200_000_000_000 (next_cron_time calendar nightly 7_200_000_000_000)
next_cron_time-IsNext_example = next_cron_time-IsNext calendar nightly 7_200_000_000_000
