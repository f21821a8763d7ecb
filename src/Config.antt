-- ===== src/Config.antt =====
-- internal/config/config.go: the settings that the hub reads, their defaults and their validation.
-- Reading the file, the environment and YAML are left out; numbers are signed, as in Go, and a duration
-- is in nanoseconds.
pub mod Defaults
pub mod Validation
use whatsupp.Base.{
  ℕ, ◌*◌, ℤ, pos, eq_int, String, Bool, true, false, ◌&&◌, ◌||◌, List, [], ◌∷◌, Option, none, some,
  ◌==◌, str_eq, if◌then◌else◌, map,
}

pub record ServerConfig : Type 0 where
  pub listen : String
  pub db_path : String

pub record Monitor : Type 0 where
  pub name : String
  pub type : String
  pub url : String
  pub host : String
  pub port : ℤ
  pub query : String
  pub group : String
  pub interval : ℤ
  pub failure_threshold : ℤ
  pub insecure_skip_verify : Bool

pub record SecurityTarget : Type 0 where
  pub host : String
  pub schedule : String
  pub scan_concurrency : ℤ
  pub timeout : ℤ
  pub alert_hysteresis : ℤ

pub record ThresholdsConfig : Type 0 where
  pub ssl_expiry_days : List ℤ
  pub disk_usage_pct : ℤ
  pub disk_hysteresis_pct : ℤ
  pub down_reminder_interval : ℤ

pub record Config : Type 0 where
  pub server : ServerConfig
  pub monitors : List Monitor
  pub targets : List SecurityTarget
  pub default_failure_threshold : ℤ
  pub thresholds : ThresholdsConfig

abbrev pub second : ℕ
second = 1_000_000_000

-- The value of a setting that is zero, or empty, is the default.
abbrev pub or_default : ℤ → ℤ → ℤ
or_default n default = if eq_int n (pos 0) then default else n

abbrev pub or_text : String → String → String
or_text s default = if str_eq s "" then default else s

abbrev pub or_days : List ℤ → List ℤ
or_days [] = pos 14 ∷ pos 7 ∷ pos 3 ∷ pos 1 ∷ []
or_days (d ∷ days) = d ∷ days

unfoldable pub default_interval : String → ℤ
default_interval type =
    if str_eq type "http" || str_eq type "ping"
    then pos (60 * second)
    else if str_eq type "port"
    then pos (120 * second)
    else pos 0

unfoldable pub default_monitor : ℤ → Monitor → Monitor
unfolding default_interval
default_monitor threshold m = record m {
  failure_threshold = or_default m.failure_threshold threshold;
  interval = or_default m.interval (default_interval m.type);
}

unfoldable pub default_target : SecurityTarget → SecurityTarget
default_target t = record t {
  scan_concurrency = or_default t.scan_concurrency (pos 200);
  timeout = or_default t.timeout (pos (2 * second));
  alert_hysteresis = or_default t.alert_hysteresis (pos 2);
}

unfoldable pub default_thresholds : ThresholdsConfig → ThresholdsConfig
default_thresholds t = record {
  ssl_expiry_days = or_days t.ssl_expiry_days;
  disk_usage_pct = or_default t.disk_usage_pct (pos 90);
  disk_hysteresis_pct = or_default t.disk_hysteresis_pct (pos 5);
  down_reminder_interval = or_default t.down_reminder_interval (pos (3600 * second));
}

unfoldable pub apply_defaults : Config → Config
unfolding default_monitor default_target default_thresholds
apply_defaults cfg =
    let threshold = or_default cfg.default_failure_threshold (pos 3) in
    record {
      server = record {
        listen = or_text cfg.server.listen ":8080";
        db_path = or_text cfg.server.db_path "/data/whatsupp.db";
      };
      monitors = map (default_monitor threshold) cfg.monitors;
      targets = map default_target cfg.targets;
      default_failure_threshold = threshold;
      thresholds = default_thresholds cfg.thresholds;
    }

-- The messages of `validate`, each with the monitor's name.
pub data ConfigError : Type 0 where
  missing_name : ConfigError
  requires_url requires_host requires_host_and_port unknown_type : String → ConfigError

unfoldable pub validate_monitor : Monitor → Option ConfigError
validate_monitor m =
    if str_eq m.name ""
    then some missing_name
    else if str_eq m.type "http"
    then (if str_eq m.url "" then some (requires_url m.name) else none)
    else if str_eq m.type "ping"
    then (if str_eq m.host "" then some (requires_host m.name) else none)
    else if str_eq m.type "port"
    then (if str_eq m.host "" || eq_int m.port (pos 0)
        then some (requires_host_and_port m.name)
        else none)
    else if str_eq m.type "dns"
    then (if str_eq m.host "" then some (requires_host m.name) else none)
    else some (unknown_type m.name)

unfoldable pub validate : List Monitor → Option ConfigError
unfolding validate_monitor
validate [] = none
validate (m ∷ ms) =
    let rest = validate ms in elim (validate_monitor m) [ none ↦ rest | some e ↦ some e ]

pub data Loaded : Type 0 where
  ok : Config → Loaded
  err : ConfigError → Loaded

-- The end of Load, on the parsed file.
unfoldable pub load : Config → Loaded
unfolding apply_defaults validate
load cfg =
    let filled = apply_defaults cfg in
    elim (validate filled.monitors) [ none ↦ ok filled | some e ↦ err e ]
