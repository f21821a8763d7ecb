-- ===== src/Agent.antt =====
-- internal/agent/agent.go: the agent, which sends a batch of metrics at every tick, first those it
-- has buffered. A metric's value is of any type; the hub's answers are a parameter.
pub mod Backoff
pub mod Buffer
pub mod Push
pub mod Flush
pub mod Collect
pub mod Collectors
use whatsupp.Base.{
  ℕ, ◌+◌, Bool, true, false, List, [], ◌∷◌, ◌++◌, Option, some, none, if◌then◌else◌,
}
use Buffer.{MetricBatch, MetricBuffer, add, drain}
use Push.{SendResult, sent, classify}

-- What the hub answers to the n-th request: a status code, or nothing.
abbrev pub Transport : Type 0 → Type 0
Transport V = ℕ → MetricBatch V → Option ℕ

-- `delivered` lists the batches whose request the hub has accepted, oldest first.
pub record Agent (V : Type 0) : Type 0 where
  pub buffer : MetricBuffer V
  pub requests : ℕ
  pub delivered : List (MetricBatch V)

module _ {V : Type 0} (hub : Transport V) where
  unfoldable pub send : Agent V → MetricBatch V → SendResult
  send a batch = classify (hub a.requests batch)

  -- The state after the request of `send`.
  unfoldable pub after_send : Agent V → MetricBatch V → SendResult → Agent V
  after_send a batch sent = record a {
    requests = a.requests + 1;
    delivered = a.delivered ++ batch ∷ [];
  }
  after_send a batch _ = record a { requests = a.requests + 1 }

  -- A batch that fails goes back to the buffer, and the loop ends.
  unfoldable pub flush_batches : ℕ → List (MetricBatch V) → Agent V → Agent V
  unfolding send after_send
  flush_batches now [] a = a
  flush_batches now (batch ∷ rest) a = elim (send a batch) [
    | sent ↦ flush_batches now rest (after_send a batch (send a batch))
    | _ ↦
        let a' = after_send a batch (send a batch) in record a' { buffer = add a'.buffer batch now }
  ]

  unfoldable pub flush_buffer : ℕ → Agent V → Agent V
  unfolding flush_batches
  flush_buffer now a =
      let (batches, emptied) = drain a.buffer in
      flush_batches now batches (record a { buffer = emptied })

  -- collectAndPush, given the batch that it has collected.
  unfoldable pub push_batch : ℕ → MetricBatch V → Agent V → Agent V
  unfolding flush_buffer
  push_batch now batch a =
      let flushed = flush_buffer now a in
      let pushed = after_send flushed batch (send flushed batch) in
      elim (send flushed batch) [
        | sent ↦ pushed
        | _ ↦ record pushed { buffer = add pushed.buffer batch now }
      ]
