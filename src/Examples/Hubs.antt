-- ===== src/Examples/Hubs.antt =====
-- internal/hub, internal/api/websocket.go: a hub whose monitor fails, a downsampler round over four
-- rows, and an event loop with a full client.
use whatsupp.Base.{
  ℕ, ◌+◌, ◌*◌, ◌≡◌, refl, String, false, List, [], ◌∷◌, none, some, arith, str_eq, insert,
  empty_map, keep_if, min, Bool-cases, inl, inr, pos,
}
use whatsupp.Monitor.{CheckResult, MonitorState, up, down, no_metadata}
use whatsupp.Examples.Checks.{passed, timed_out}
use whatsupp.Alerting.{check_error, new_ntfy_client}
use whatsupp.Store.{CheckRow, Tables, Store, Incident, fresh_id}
use whatsupp.Hub.{Hub, Times, process_result}
use whatsupp.Hub.Consistency.{Consistent, process_result-Consistent}
use whatsupp.Store.Failures.{count_consecutive_failures}
use whatsupp.Hub.Silence.{process_all}
use whatsupp.Hub.Failures.{count_consecutive_failures-process_all}
use whatsupp.Tiers.{aggregate_hourly, aggregate_daily, in_window}
use whatsupp.Tiers.Counts.{totals, counted, aggregations_conserve}
use whatsupp.Sockets.{
  WsHub, Action, publish, drain, proceed, stop, receive, unregister, sending, unregistering,
  queued_of, run,
}
use whatsupp.Sockets.Blocking.{ids, slow_client_blocks}

abbrev outage : Incident
outage = record {
  id = 2;
  monitor = "web";
  started_at = 100;
  resolved_at = none;
  cause = check_error "timeout";
}

abbrev settled : Incident
settled = record {
  id = 1;
  monitor = "web";
  started_at = 20;
  resolved_at = some 30;
  cause = check_error "timeout";
}

abbrev incidents : List Incident
incidents = outage ∷ settled ∷ []

abbrev pub web_down : MonitorState
web_down = record {
  name = "web";
  status = down;
  failure_threshold = pos 2;
  consecutive_failures = 3;
  last_error = "timeout";
  total_checks = 7;
  total_up = 4;
}

abbrev pub hub : Hub
hub = record {
  store = record {
    tables = record {
      check_results = [];
      check_results_hourly = [];
      check_results_daily = [];
      incidents = incidents;
      security_scans = [];
      security_baselines = empty_map;
    };
    fails = λ n. false;
    calls = 0;
  };
  alerter = new_ntfy_client (pos 60);
  monitor_states = insert empty_map "web" web_down;
  last_results = empty_map;
  last_check_at = empty_map;
  ssl_expiry_days = [];
  alerts = [];
  broadcasts = [];
}

pub hub-Consistent : Consistent hub
unfolding fresh_id
hub-Consistent = record {
  never_fails = λ n. refl;
  ids = (omega arith, (omega arith, tt));
  counts = λ m ms known. elim (Bool-cases (str_eq "web" m)) [
    | inl web ↦ ground arith
    | inr other ↦ ground arith
  ];
}

abbrev at : ℕ → Times
at n = record { received = n; checked = n; alerted = n * 1_000_000_000 }

process_result-Consistent_example : Consistent (process_result (at 200) passed hub)
process_result-Consistent_example = process_result-Consistent (at 200) passed hub hub-Consistent

abbrev failures : List (Times × CheckResult)
failures = (at 200, timed_out) ∷ (at 9000, timed_out) ∷ []

abbrev started_hub : Hub
started_hub = record hub {
  monitor_states =
      insert empty_map "web" (record web_down { status = up; consecutive_failures = 0 });
}

count_consecutive_failures-process_all_example :
    let h' = process_all failures started_hub in
    (last : MonitorState) × (h'.monitor_states "web" ≡ some last)
    × ((count_consecutive_failures "web" h'.store).0 ≡ some (min 100 last.consecutive_failures))
count_consecutive_failures-process_all_example =
    count_consecutive_failures-process_all "web" failures
      (record web_down { status = up; consecutive_failures = 0 }) started_hub (λ n. refl) refl refl
      refl (omega arith, inr refl, (omega arith, inr refl, tt))

abbrev row : ℕ → String → CheckRow
row t status = record {
  monitor = "web";
  timestamp = t;
  status = status;
  latency_us = 900;
  metadata = no_metadata;
}

abbrev tables : Tables
tables = record {
  check_results = row 90_100 "up" ∷ row 90_040 "down" ∷ row 86_500 "up" ∷ row 40_000 "up" ∷ [];
  check_results_hourly =
      record { monitor = "web"; bucket = 82_800; success_count = 58; fail_count = 2 } ∷ [];
  check_results_daily = [];
  incidents = [];
  security_scans = [];
  security_baselines = empty_map;
}

abbrev store : Store
store = record { tables = tables; fails = λ n. false; calls = 0 }

aggregations_conserve_example :
    ((totals "web" (aggregate_hourly 86_400 90_000 tables).check_results_hourly).0
      ≡ 58 + counted "web" "up" 86_400 90_000 tables.check_results)
    × ((totals "web" (aggregate_hourly 86_400 90_000 tables).check_results_hourly).1
        ≡ 2 + counted "web" "down" 86_400 90_000 tables.check_results)
    × ((totals "web" (aggregate_daily 86_400 90_000 tables).check_results_daily).0
        ≡ 0
          + (totals "web"
              (keep_if (λ s. in_window 86_400 90_000 s.bucket) tables.check_results_hourly)).0)
    × ((totals "web" (aggregate_daily 86_400 90_000 tables).check_results_daily).1
        ≡ 0
          + (totals "web"
              (keep_if (λ s. in_window 86_400 90_000 s.bucket) tables.check_results_hourly)).1)
aggregations_conserve_example = aggregations_conserve "web" 86_400 90_000 tables

-- Client 1 has stopped reading.
abbrev sockets : WsHub
sockets = record {
  clients = record { id = 1; queued = 256 } ∷ record { id = 2; queued = 0 } ∷ [];
  broadcast = [];
  quit = false;
  position = sending 7 (1 ∷ 2 ∷ []);
}

abbrev schedule : List Action
schedule = drain 1 ∷ unregister 1 ∷ publish 8 ∷ receive ∷ stop ∷ []

slow_client_blocks_example :
    ((run sockets (proceed ∷ schedule)).position ≡ unregistering 1 7 (2 ∷ []))
    × (ids (run sockets (proceed ∷ schedule)).clients ≡ 1 ∷ 2 ∷ [])
slow_client_blocks_example =
    slow_client_blocks schedule sockets 7 1 256 (2 ∷ []) refl (unfold queued_of in refl)
      (omega arith)
