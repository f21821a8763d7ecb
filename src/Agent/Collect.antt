-- ===== src/Agent/Collect.antt =====
-- internal/agent/agent.go: New, collect, collectAndPush and Run, with CollectorEnabled of
-- internal/agent/config.go. What a collector reads of its host is a parameter, as is the order in
-- which the results of the goroutines arrive.
pub mod Order
pub mod Once
use whatsupp.Base.{
  ℕ, String, Bool, true, List, [], ◌∷◌, ◌++◌, map, Option, none, some, keep_if, Map,
}
use whatsupp.Agent.{Agent, Transport, flush_buffer, push_batch}
use whatsupp.Agent.Buffer.{Metric, MetricBatch, new_metric_buffer}
use whatsupp.Agent.Backoff.{Backoff, new_backoff, allow, failure, success}

-- `collect` gives what a call at a time returns: none is an error.
pub record Collector (V : Type 0) : Type 0 where
  pub name : String
  pub collect : ℕ → Option (List (Metric V))

pub record CollectResult (V : Type 0) : Type 0 where
  pub name : String
  pub metrics : Option (List (Metric V))

-- The settings that the loop reads; `collectors` turns collectors on or off by their names.
pub record LoopConfig : Type 0 where
  pub hostname : String
  pub interval : ℕ
  pub collectors : Map Bool

unfoldable pub collector_enabled : LoopConfig → String → Bool
collector_enabled cfg name = elim (cfg.collectors name) [ none ↦ true | some enabled ↦ enabled ]

-- The agent with its collectors; `pushes` holds its buffer and its requests.
pub record AgentLoop (V : Type 0) : Type 0 where
  pub collectors : List (Collector V)
  pub hostname : String
  pub backoff : Backoff
  pub pushes : Agent V

-- The readings of the clock in a tick: before the collectors start, for the batch, and for the
-- requests.
pub record Tick : Type 0 where
  pub started : ℕ
  pub stamped : ℕ
  pub pushed : ℕ

-- Thirty minutes, five minutes.
abbrev pub max_collector_backoff : ℕ
max_collector_backoff = 1_800_000_000_000

abbrev pub buffer_age : ℕ
buffer_age = 300_000_000_000

module _ {V : Type 0} where
  unfoldable pub new : LoopConfig → List (Collector V) → AgentLoop V
  unfolding collector_enabled new_metric_buffer new_backoff
  new cfg all = record {
    collectors = keep_if (λ c. collector_enabled cfg c.name) all;
    hostname = cfg.hostname;
    backoff = new_backoff cfg.interval max_collector_backoff;
    pushes = record { buffer = new_metric_buffer buffer_age 10; requests = 0; delivered = [] };
  }

  -- The collectors that are not backing off, each with its result, in the order they are started in.
  unfoldable pub start_collectors : Backoff → ℕ → List (Collector V) → List (CollectResult V)
  unfolding allow
  start_collectors b now cs =
      map (λ c. record { name = c.name; metrics = c.collect now })
        (keep_if (λ c. allow b c.name now) cs)

  -- The loop over the results that arrive.
  unfoldable pub take_results : ℕ → List (CollectResult V) → Backoff → List (Metric V) × Backoff
  unfolding failure success
  take_results now [] b = ([], b)
  take_results now (r ∷ rs) b = elim r.metrics [
    | none ↦ take_results now rs (failure b r.name now).0
    | some ms ↦ let (all, b') = take_results now rs (success b r.name).0 in (ms ++ all, b')
  ]

  module _ (arrival : List (CollectResult V) → List (CollectResult V)) where
    unfoldable pub collect : ℕ → List (Collector V) → Backoff → List (Metric V) × Backoff
    unfolding start_collectors take_results
    collect now cs b = take_results now (arrival (start_collectors b now cs)) b

    -- The batch of a tick, and the throttle after its collectors.
    unfoldable pub next_batch : String → Tick → AgentLoop V → MetricBatch V × Backoff
    unfolding collect
    next_batch version t a =
        let (metrics, backoff) = collect t.started a.collectors a.backoff in
        let batch : MetricBatch V = record {
          host = a.hostname;
          timestamp = t.stamped;
          metrics = metrics;
          version = version;
        } in
        (batch, backoff)

    module _ (hub : Transport V) (version : String) where
      unfoldable pub collect_and_push : Tick → AgentLoop V → AgentLoop V
      unfolding next_batch push_batch
      collect_and_push t a =
          let (batch, backoff) = next_batch version t a in
          record a { backoff = backoff; pushes = push_batch hub t.pushed batch a.pushes }

      -- The ticks until the context is done, of which the first is at the start, and the last flush.
      unfoldable pub run : List Tick → ℕ → AgentLoop V → AgentLoop V
      unfolding collect_and_push flush_buffer
      run [] done a = record a { pushes = flush_buffer hub done a.pushes }
      run (t ∷ ts) done a = run ts done (collect_and_push t a)
