-- ===== src/Checks.antt =====
-- internal/checks: the HTTP, DNS, port and ping checkers, and the port scanner. What the network
-- answers, the latency in microseconds, and the texts that fmt makes are parameters; timeouts are in
-- nanoseconds.
pub mod Scanner
pub mod Accepted
use whatsupp.Base.{
  ℕ, ℤ, ◌*◌, String, Bool, true, false, ◌||◌, List, [], ◌∷◌, Option, none, some, ltb, ◌==◌, str_eq,
  if◌then◌else◌, length,
}
use whatsupp.Monitor.{CheckResult, Metadata, no_metadata, json}

abbrev pub second : ℕ
second = 1_000_000_000

-- Ten seconds if none is given.
unfoldable pub timeout_of : ℕ → ℕ
timeout_of seconds = if seconds * second == 0 then 10 * second else seconds * second

-- A call of a network library: an error, or what it gives.
pub data Outcome (A : Type 0) : Type 0 where
  failed : String → Outcome A
  answered : A → Outcome A

pub record HttpChecker : Type 0 where
  pub url : String
  pub timeout : ℕ
  pub insecure_skip_verify : Bool
  pub accepted_codes : List ℕ

-- The status code, and the days that the first certificate of the peer has left, if there is one.
pub record HttpResponse : Type 0 where
  pub status_code : ℕ
  pub cert_days_left : Option ℤ

abbrev pub contains_code : ℕ → List ℕ → Bool
contains_code code [] = false
contains_code code (c ∷ cs) = code == c || contains_code code cs

unfoldable pub is_up_code : List ℕ → ℕ → Bool
is_up_code [] code = ltb code 500
is_up_code (c ∷ cs) code = contains_code code (c ∷ cs)

unfoldable pub check_http :
    (ℕ → String)
    → HttpChecker
    → (String → Bool → ℕ → Outcome HttpResponse)
    → ℕ
    → String
    → CheckResult
unfolding timeout_of is_up_code
check_http http_error c get latency monitor =
    elim (get c.url c.insecure_skip_verify (timeout_of c.timeout)) [
      | failed e ↦ record {
        monitor = monitor;
        status = "down";
        latency_us = latency;
        metadata = no_metadata;
        error = e;
      }
      | answered resp ↦
          let up = is_up_code c.accepted_codes resp.status_code in
          record {
            monitor = monitor;
            status = if up then "up" else "down";
            latency_us = latency;
            metadata = json resp.cert_days_left;
            error = if up then "" else http_error resp.status_code;
          }
    ]

pub record DnsChecker : Type 0 where
  pub host : String
  pub port : ℕ
  pub query : String
  pub timeout : ℕ

-- The texts of the errors of a lookup: by an error of the resolver, or without results.
pub record DnsErrors : Type 0 where
  pub lookup_failed : String → String → ℕ → String → String
  pub no_results : String → String → ℕ → String

unfoldable pub check_dns :
    DnsErrors
    → DnsChecker
    → (String → ℕ → String → ℕ → Outcome (List String))
    → ℕ
    → String
    → CheckResult
unfolding timeout_of
check_dns errors c lookup_host latency monitor =
    let port = if c.port == 0 then 53 else c.port in
    let query = if str_eq c.query "" then "google.com" else c.query in
    let down : String → CheckResult = λ e. record {
      monitor = monitor;
      status = "down";
      latency_us = latency;
      metadata = no_metadata;
      error = e;
    } in
    elim (lookup_host c.host port query (timeout_of c.timeout)) [
      | failed e ↦ down (errors.lookup_failed query c.host port e)
      | answered [] ↦ down (errors.no_results query c.host port)
      | answered (ip ∷ ips) ↦ record {
        monitor = monitor;
        status = "up";
        latency_us = latency;
        metadata = no_metadata;
        error = "";
      }
    ]

pub record PortChecker : Type 0 where
  pub host : String
  pub port : ℕ
  pub timeout : ℕ

unfoldable pub check_port :
    (String → ℕ → String → String)
    → PortChecker
    → (String → ℕ → ℕ → Outcome (Unit {0}))
    → ℕ
    → String
    → CheckResult
unfolding timeout_of
check_port connect_error c dial latency monitor = elim (dial c.host c.port (timeout_of c.timeout)) [
  | failed e ↦ record {
    monitor = monitor;
    status = "down";
    latency_us = latency;
    metadata = json none;
    error = connect_error c.host c.port e;
  }
  | answered u ↦ record {
    monitor = monitor;
    status = "up";
    latency_us = latency;
    metadata = json none;
    error = "";
  }
]

pub record PingChecker : Type 0 where
  pub host : String
  pub count : ℕ
  pub timeout : ℕ

-- The packets received, and the average round trip in microseconds.
pub record PingStatistics : Type 0 where
  pub packets_recv : ℕ
  pub avg_rtt_us : ℕ

-- A pinger that cannot be made, or the outcome of its run.
pub data PingOutcome : Type 0 where
  no_pinger : String → PingOutcome
  ran : Outcome PingStatistics → PingOutcome

pub record PingErrors : Type 0 where
  pub create_failed : String → String
  pub run_failed : String → String
  pub all_lost : String → String

unfoldable pub check_ping :
    PingErrors → PingChecker → (String → ℕ → ℕ → PingOutcome) → String → CheckResult
unfolding timeout_of
check_ping errors c ping monitor =
    let count = if c.count == 0 then 3 else c.count in
    let down : String → CheckResult = λ e. record {
      monitor = monitor;
      status = "down";
      latency_us = 0;
      metadata = no_metadata;
      error = e;
    } in
    elim (ping c.host count (timeout_of c.timeout)) [
      | no_pinger e ↦ down (errors.create_failed e)
      | ran (failed e) ↦ down (errors.run_failed e)
      | ran (answered stats) ↦
          let lost = stats.packets_recv == 0 in
          record {
            monitor = monitor;
            status = if lost then "down" else "up";
            latency_us = stats.avg_rtt_us;
            metadata = json none;
            error = if lost then errors.all_lost c.host else "";
          }
    ]
