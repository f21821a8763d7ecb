-- ===== src/Examples/Requests.antt =====
-- internal/api: a WebSocket from another site, an upload of a configuration, and the status of a monitor.
use whatsupp.Base.{
  ℕ, ◌*◌, ◌/◌, ◌≡◌, refl, true, false, List, [], ◌∷◌, none, some, take, empty_map, insert,
  if◌then◌else◌, pos, ◌⊎◌, String,
}
use whatsupp.Config.{Loaded, ok}
use whatsupp.Monitor.{MonitorState, up, record_result}
use whatsupp.Hub.{Hub, Times, process_result}
use whatsupp.Hub.Reload.{reload_config}
use whatsupp.Hub.Status.{
  SameButUptime, Percentages, StatusView, cert_days, monitor_status, status_text,
  monitor_status-process_result,
}
use whatsupp.Sockets.Origin.{check_origin}
use whatsupp.ConfigFile.{Bytes, Faults, tmp_path, put_config, body_limit}
use whatsupp.ConfigFile.Replace.{is_replaced, put_config_lem}
use whatsupp.Examples.Hubs.{hub, web_down}
use whatsupp.Examples.Checks.{passed}
use whatsupp.Examples.Settings.{config}

-- The host "a.b" in the origin "//a.b.c".
abbrev host : List ℕ
host = 97 ∷ 46 ∷ 98 ∷ []

abbrev origin : List ℕ
origin = 47 ∷ 47 ∷ 97 ∷ 46 ∷ 98 ∷ 46 ∷ 99 ∷ []

lets_through : check_origin origin host ≡ true
unfolding check_origin
lets_through = refl

abbrev parse : Bytes → Loaded
parse content = ok config

abbrev rename_fails : Faults
rename_fails = record { write = none; rename = true; remove = false }

abbrev body : Bytes
body = 120 ∷ 58 ∷ 32 ∷ 49 ∷ []

put_config_lem_example :
    (let (reply, (files', h')) =
        put_config parse rename_fails "config.yml" (some body) (empty_map, hub) in
      (files' "config.yml" ≡ (if is_replaced reply then some (take body_limit body) else none))
      × (h' ≡ (if is_replaced reply then reload_config (parse (take body_limit body)) hub else hub))
      × (files' "whatsupp.db" ≡ none))
put_config_lem_example =
    put_config_lem parse rename_fails "config.yml" "whatsupp.db" body empty_map hub refl
      (unfold tmp_path in refl)

abbrev percentages : Percentages ℕ
percentages = record {
  full = 100;
  percent = λ ups checks. ups * 100 / checks;
  rounded = λ ups checks. ups * 100 / checks;
}

abbrev dns : MonitorState
dns = record {
  name = "dns";
  status = up;
  failure_threshold = pos 3;
  consecutive_failures = 0;
  last_error = "";
  total_checks = 0;
  total_up = 0;
}

abbrev two_monitors : Hub
two_monitors = record hub { monitor_states = insert hub.monitor_states "dns" dns }

abbrev at : Times
at = record { received = 200; checked = 200; alerted = 200_000_000_000 }

abbrev web : MonitorState
web = web_down

monitor_status-process_result_example :
    let h' = process_result at passed two_monitors in
    ((v : StatusView ℕ) × (monitor_status percentages empty_map 300 h' "web" ≡ some v)
      × (v.status ≡ status_text (record_result web passed).0)
      × (v.latency_us ≡ passed.latency_us)
      × (v.last_check ≡ 200)
      × (v.cert_days_left ≡ cert_days passed.metadata))
    × ((j : String)
        → ("web" ≡ j)
          ⊎ SameButUptime
              (monitor_status percentages empty_map 300 two_monitors j)
              (monitor_status percentages empty_map 300 h' j))
monitor_status-process_result_example =
    monitor_status-process_result percentages empty_map 300 at passed web two_monitors refl
