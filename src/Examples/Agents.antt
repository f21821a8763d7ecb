-- ===== src/Examples/Agents.antt =====
-- internal/agent: a buffer of three batches, a hub that refuses some of them, and a throttle.
use whatsupp.Base.{
  Listed, String, eq_iff, false, inl, inr, insert, empty_map, ℕ, ◌≡◌, refl, List, [], ◌∷◌, some,
  arith, leb, ◌==◌, if◌then◌else◌,
}
use whatsupp.Agent.{Agent, Transport, flush_buffer}
use whatsupp.Agent.Buffer.{MetricBatch, MetricBuffer}
use whatsupp.Agent.Push.{classify}
use whatsupp.Agent.Flush.{flush_buffer_loses}
use whatsupp.Agent.Backoff.{new_backoff, allow}
use whatsupp.Agent.Backoff.Runs.{
  Outcome, failed, succeeded, after, run_of, retry_time, allow_by_history,
}
use whatsupp.Ingest.{AgentMetricsPayload, AgentTables, Faults, push}
use whatsupp.Ingest.{AgentMetricRow, metric_row}
use whatsupp.AgentMetrics.{MetricTables}
use whatsupp.AgentMetrics.Queries.{host_metrics}
use whatsupp.AgentMetrics.Shown.{pushed_metric_is_shown}
use whatsupp.Examples.Metrics.{db}
use whatsupp.Ingest.Ownership.{HasKey, rows_of, push_only_own_host}

abbrev at : ℕ → MetricBatch ℕ
at t = record {
  host = "nas";
  timestamp = t;
  metrics = record { name = "cpu.usage_pct"; value = 12 } ∷ [];
  version = "1.0";
}

abbrev buffer : MetricBuffer ℕ
buffer = record { batches = at 10 ∷ at 20 ∷ at 30 ∷ []; max_age = 100; max_size = 3 }

-- The hub takes the first request and has a server error on the second.
abbrev hub : Transport ℕ
hub n batch = if n == 1 then some 500 else some 204

abbrev willing : Transport ℕ
willing n batch = some 204

abbrev agent : Agent ℕ
agent = record { buffer = buffer; requests = 0; delivered = [] }

flush_buffer_loses_example :
    ((flush_buffer hub 50 agent).delivered ≡ at 10 ∷ [])
    × ((flush_buffer hub 50 agent).buffer.batches ≡ at 20 ∷ [])
flush_buffer_loses_example =
    flush_buffer_loses hub 50 agent (at 10 ∷ []) (at 30 ∷ []) (at 20) refl (omega arith)
      (unfold classify in (refl, tt)) (unfold classify in ground arith)

abbrev outcomes : List Outcome
outcomes = failed "docker" 200 ∷ failed "docker" 100 ∷ failed "net" 90 ∷ succeeded "docker" ∷ []

allow_by_history_example :
    allow (after (new_backoff 60 900) outcomes) "docker" 250
    ≡ leb (retry_time (new_backoff 60 900) (run_of "docker" outcomes)) 250
allow_by_history_example = allow_by_history 60 900 outcomes "docker" 250

abbrev keys : List (String × String)
keys = ("nas", "key1") ∷ ("pi", "key2") ∷ []

abbrev payload : AgentMetricsPayload ℕ
payload = record {
  host = "nas";
  timestamp = some 900;
  metrics = record { name = "cpu.usage_pct"; value = 12 } ∷ [];
  version = "1.0";
}

abbrev tables : AgentTables ℕ
tables = record {
  agent_metrics =
      record { host = "pi"; timestamp = 800; metric_name = "cpu.usage_pct"; value = 3 } ∷ [];
  agent_heartbeats = insert empty_map "pi" (record { last_seen_at = 800; version = "0.9" });
}

abbrev no_faults : Faults
no_faults = record { insert_metrics = false; upsert_heartbeat = false; update_version = false }

pi_key : HasKey "pi" "key1" keys → ⊥
pi_key (inl (names, tokens)) = ground (arith, names, eq_iff "nas" "pi")
pi_key (inr (inl (names, tokens))) = ground (arith, tokens, eq_iff "key2" "key1")
pi_key (inr (inr nothing)) = nothing

push_only_own_host_example :
    (rows_of "pi" (push keys no_faults 901 (some "key1") (some payload) tables).1.agent_metrics
      ≡ rows_of "pi" tables.agent_metrics)
    × ((push keys no_faults 901 (some "key1") (some payload) tables).1.agent_heartbeats "pi"
        ≡ tables.agent_heartbeats "pi")
push_only_own_host_example =
    push_only_own_host keys no_faults 901 "key1" "pi" (some payload) tables pi_key

-- The tables after the push, with no aggregates yet.
abbrev pushed : MetricTables ℕ
pushed = record {
  agent_metrics = (push keys no_faults 901 (some "key1") (some payload) tables).1.agent_metrics;
  agent_metrics_5min = [];
  agent_metrics_15min = [];
  agent_metrics_hourly = [];
  agent_metrics_daily = [];
}

pushed_metric_is_shown_example :
    (rows : List (AgentMetricRow ℕ)) × (host_metrics db false "nas" 600 1_200 [] pushed ≡ some rows)
    × Listed (metric_row "nas" 900 (record { name = "cpu.usage_pct"; value = 12 })) rows
unfolding push
pushed_metric_is_shown_example =
    pushed_metric_is_shown db keys no_faults 901 600 1_200 (some "key1") payload tables
      (push keys no_faults 901 (some "key1") (some payload) tables).1 pushed
      (record { name = "cpu.usage_pct"; value = 12 }) refl (inl refl) refl (omega arith)
      (omega arith) (omega arith)
