-- ===== src/Ingest.antt =====
-- internal/api/middleware.go (AgentKeyAuth), internal/api/handlers.go (PostAgentMetrics) and the
-- statements of internal/store/agent_metrics.go that it runs. The keys are the pairs of a host and
-- its key in the order of the loop over the map; the bearer token is none if the header has none.
-- `V` is a metric's value. The broadcast of a stored payload is left out.
pub mod Ownership
use whatsupp.Base.{
  ℕ, String, Bool, true, false, not, ◌&&◌, ◌||◌, List, [], ◌∷◌, ◌++◌, Option, none, some, str_eq,
  if◌then◌else◌, Map, insert, map,
}
use whatsupp.Agent.Buffer.{Metric}

unfoldable pub matched_host : String → List (String × String) → String → String
matched_host token [] matched = matched
matched_host token ((host, key) ∷ keys) matched =
    matched_host token keys (if str_eq token key then host else matched)

unfoldable pub agent_key_auth : List (String × String) → Option String → Option String
unfolding matched_host
agent_key_auth keys none = none
agent_key_auth keys (some token) =
    let host = matched_host token keys "" in if str_eq host "" then none else some host

pub record AgentMetricRow (V : Type 0) : Type 0 where
  pub host : String
  pub timestamp : ℕ
  pub metric_name : String
  pub value : V

pub record AgentHeartbeat : Type 0 where
  pub last_seen_at : ℕ
  pub version : String

pub record AgentTables (V : Type 0) : Type 0 where
  pub agent_metrics : List (AgentMetricRow V)
  pub agent_heartbeats : Map AgentHeartbeat

-- The time is none if it does not parse.
pub record AgentMetricsPayload (V : Type 0) : Type 0 where
  pub host : String
  pub timestamp : Option ℕ
  pub metrics : List (Metric V)
  pub version : String

pub record Faults : Type 0 where
  pub insert_metrics : Bool
  pub upsert_heartbeat : Bool
  pub update_version : Bool

pub data Reply : Type 0 where
  stored bad_request forbidden internal_error unauthorized : Reply

abbrev pub time_of : Option ℕ → ℕ → ℕ
time_of none now = now
time_of (some at) now = at

abbrev pub version_of : Option AgentHeartbeat → String
version_of none = ""
version_of (some hb) = hb.version

module _ {V : Type 0} where
  unfoldable pub metric_row : String → ℕ → Metric V → AgentMetricRow V
  metric_row host at m = record {
    host = host;
    timestamp = at;
    metric_name = m.name;
    value = m.value;
  }

  unfoldable pub insert_agent_metrics_batch :
      String → ℕ → List (Metric V) → AgentTables V → AgentTables V
  unfolding metric_row
  insert_agent_metrics_batch host at metrics t = record t {
    agent_metrics = t.agent_metrics ++ map (metric_row host at) metrics;
  }

  unfoldable pub upsert_heartbeat : String → ℕ → AgentTables V → AgentTables V
  upsert_heartbeat host at t =
      let hb : AgentHeartbeat = record {
        last_seen_at = at;
        version = version_of (t.agent_heartbeats host);
      } in
      record t { agent_heartbeats = insert t.agent_heartbeats host hb }

  unfoldable pub update_agent_version : String → String → AgentTables V → AgentTables V
  update_agent_version host version t = elim (t.agent_heartbeats host) [
    | none ↦ t
    | some hb ↦ record t {
      agent_heartbeats = insert t.agent_heartbeats host (record hb { version = version });
    }
  ]

  abbrev pub has_metrics : List (Metric V) → Bool
  has_metrics [] = false
  has_metrics (m ∷ ms) = true

  -- The statements of a payload that was let through; only the first one's error is reported.
  unfoldable pub store_metrics :
      Faults → ℕ → AgentMetricsPayload V → AgentTables V → Reply × AgentTables V
  unfolding insert_agent_metrics_batch upsert_heartbeat update_agent_version
  store_metrics f now p t =
      let at = time_of p.timestamp now in
      if f.insert_metrics
      then (internal_error, t)
      else let inserted = insert_agent_metrics_batch p.host at p.metrics t in
        let seen = if f.upsert_heartbeat then inserted else upsert_heartbeat p.host at inserted in
        (
          stored,
          if str_eq p.version "" || f.update_version
              then seen
              else update_agent_version p.host p.version seen,
        )

  -- The body is none if it does not decode.
  unfoldable pub post_agent_metrics :
      Faults → ℕ → String → Option (AgentMetricsPayload V) → AgentTables V → Reply × AgentTables V
  unfolding store_metrics
  post_agent_metrics f now authed_host none t = (bad_request, t)
  post_agent_metrics f now authed_host (some p) t =
      if str_eq p.host "" || not (has_metrics p.metrics)
      then (bad_request, t)
      else if not (str_eq authed_host "") && not (str_eq p.host authed_host)
      then (forbidden, t)
      else store_metrics f now p t

  -- The route: the handler behind the middleware.
  unfoldable pub push :
      List (String × String)
      → Faults
      → ℕ
      → Option String
      → Option (AgentMetricsPayload V)
      → AgentTables V
      → Reply × AgentTables V
  unfolding agent_key_auth post_agent_metrics
  push keys f now bearer body t = elim (agent_key_auth keys bearer) [
    | none ↦ (unauthorized, t)
    | some host ↦ post_agent_metrics f now host body t
  ]
