-- ===== src/Hub/Reload.antt =====
-- internal/hub/hub.go: the monitor states that New builds and that ReloadConfig rebuilds. The types,
-- links, groups and intervals kept for display, and the scheduler, are left out.
use whatsupp.Base.{ℤ, String, List, [], ◌∷◌, Option, none, some, Map, empty_map, insert}
use whatsupp.Monitor.{MonitorState, new_monitor_state}
use whatsupp.Alerting.{new_ntfy_client}
use whatsupp.Store.{Store}
use whatsupp.Config.{Config, Monitor, Loaded, ok, err, or_default}
use whatsupp.Hub.{Hub}

abbrev pub threshold_of : Config → Monitor → ℤ
threshold_of cfg m = or_default m.failure_threshold cfg.default_failure_threshold

unfoldable pub initial_states : Config → List Monitor → Map MonitorState → Map MonitorState
initial_states cfg [] states = states
initial_states cfg (m ∷ ms) states =
    initial_states cfg ms (insert states m.name (new_monitor_state m.name (threshold_of cfg m)))

unfoldable pub new_hub : Config → Store → Hub
unfolding initial_states
new_hub cfg s = record {
  store = s;
  alerter = new_ntfy_client cfg.thresholds.down_reminder_interval;
  monitor_states = initial_states cfg cfg.monitors empty_map;
  last_results = empty_map;
  last_check_at = empty_map;
  ssl_expiry_days = cfg.thresholds.ssl_expiry_days;
  alerts = [];
  broadcasts = [];
}

unfoldable pub reload_state : Option MonitorState → String → ℤ → MonitorState
reload_state none name threshold = new_monitor_state name threshold
reload_state (some existing) name threshold = record existing { failure_threshold = threshold }

unfoldable pub reload_states :
    Config → List Monitor → Map MonitorState → Map MonitorState → Map MonitorState
unfolding reload_state
reload_states cfg [] old states = states
reload_states cfg (m ∷ ms) old states =
    reload_states cfg ms old
      (insert states m.name (reload_state (old m.name) m.name (threshold_of cfg m)))

-- The entries of the monitors that still exist.
abbrev pub kept {ℓ κ} : {V : Type ℓ} {W : Type κ} → Map W → Map V → Map V
kept states m name = elim (states name) [ none ↦ none | some s ↦ m name ]

unfoldable pub reload_config : Loaded → Hub → Hub
unfolding reload_states
reload_config (err e) h = h
reload_config (ok cfg) h =
    let states = reload_states cfg cfg.monitors h.monitor_states empty_map in
    record h {
      monitor_states = states;
      last_results = kept states h.last_results;
      last_check_at = kept states h.last_check_at;
      ssl_expiry_days = cfg.thresholds.ssl_expiry_days;
    }
