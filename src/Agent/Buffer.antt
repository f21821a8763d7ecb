-- ===== src/Agent/Buffer.antt =====
-- internal/agent/buffer.go and the batches of internal/agent/metric.go. Times and ages are
-- nanoseconds; `t.After(now.Add(-age))` is written `now < t + age`.
pub mod Laws
use whatsupp.Base.{
  ℕ, ◌+◌, ◌-◌, String, List, [], ◌∷◌, ◌++◌, ltb, if◌then◌else◌, length, drop, keep_if,
}

pub record Metric (V : Type 0) : Type 0 where
  pub name : String
  pub value : V

pub record MetricBatch (V : Type 0) : Type 0 where
  pub host : String
  pub timestamp : ℕ
  pub metrics : List (Metric V)
  pub version : String

-- Oldest batch first.
pub record MetricBuffer (V : Type 0) : Type 0 where
  pub batches : List (MetricBatch V)
  pub max_age : ℕ
  pub max_size : ℕ

module _ {V : Type 0} where
  unfoldable pub new_metric_buffer : ℕ → ℕ → MetricBuffer V
  new_metric_buffer max_age max_size = record {
    batches = [];
    max_age = max_age;
    max_size = max_size;
  }

  unfoldable pub drop_oldest : ℕ → List (MetricBatch V) → List (MetricBatch V)
  drop_oldest max_size batches =
      if ltb max_size (length batches) then drop (length batches - max_size) batches else batches

  unfoldable pub add : MetricBuffer V → MetricBatch V → ℕ → MetricBuffer V
  unfolding drop_oldest
  add b batch now =
      let valid = keep_if (λ existing. ltb now (existing.timestamp + b.max_age)) b.batches in
      record b { batches = drop_oldest b.max_size (valid ++ batch ∷ []) }

  unfoldable pub drain : MetricBuffer V → List (MetricBatch V) × MetricBuffer V
  drain b = (b.batches, record b { batches = [] })
