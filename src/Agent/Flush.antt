-- ===== src/Agent/Flush.antt =====
-- internal/agent/agent.go: what becomes of buffered batches.
use whatsupp.Base.{ℕ, ◌+◌, ◌≤◌, ◌≡◌, ◌≢◌, refl, ap, ◌∙◌, List, [], ◌∷◌, ◌++◌, arith, length}
use mathlib.Core.List.{append-nil, append_assoc}
use whatsupp.Agent.{Agent, Transport, flush_batches, flush_buffer}
use whatsupp.Agent.Buffer.{MetricBatch, add, drain}
use whatsupp.Agent.Buffer.Laws.{add_empty}
use whatsupp.Agent.Push.{sent, classify}

module _ {V : Type 0} (hub : Transport V) where
  -- The requests numbered from `n` on that carry `bs` are all accepted.
  abbrev pub Accepts : ℕ → List (MetricBatch V) → Type 0
  Accepts n [] = Unit
  Accepts n (b ∷ bs) = (classify (hub n b) ≡ sent) × Accepts (n + 1) bs

  -- The agent after it has sent `bs`, all of which were accepted.
  abbrev pub having_sent : Agent V → List (MetricBatch V) → Agent V
  having_sent a bs = record a { requests = a.requests + length bs; delivered = a.delivered ++ bs }

  having_sent-cons :
      (a : Agent V) (b : MetricBatch V) (bs : List (MetricBatch V))
      → having_sent (having_sent a (b ∷ [])) bs ≡ having_sent a (b ∷ bs)
  having_sent-cons a b bs = ground (arith, append_assoc a.delivered (b ∷ []) bs)

  pub flush_accepted :
      (now : ℕ) (a : Agent V) (b : MetricBatch V) (rest : List (MetricBatch V))
      → classify (hub a.requests b) ≡ sent
      → flush_batches hub now (b ∷ rest) a ≡ flush_batches hub now rest (having_sent a (b ∷ []))
  unfolding flush_batches
  flush_accepted now a b rest e = ground (arith, e)

  pub flush_refused :
      (now : ℕ) (a : Agent V) (b : MetricBatch V) (rest : List (MetricBatch V))
      → classify (hub a.requests b) ≢ sent
      → flush_batches hub now (b ∷ rest) a
        ≡ record a { requests = a.requests + 1; buffer = add a.buffer b now }
  unfolding flush_batches
  flush_refused now a b rest e = ground (arith, e)

  flush_prefix :
      (now : ℕ) (a : Agent V) (pre post : List (MetricBatch V))
      → Accepts a.requests pre
      → flush_batches hub now (pre ++ post) a ≡ flush_batches hub now post (having_sent a pre)
  flush_prefix now a [] post h =
      ap (flush_batches hub now post) (ground (arith, append-nil a.delivered))
  flush_prefix now a (b ∷ pre) post h =
      flush_accepted now a b (pre ++ post) h.0
      ∙ flush_prefix now (having_sent a (b ∷ [])) pre post h.1
      ∙ ap (flush_batches hub now post) (having_sent-cons a b pre)

  flush_all :
      (now : ℕ) (a : Agent V) (bs : List (MetricBatch V))
      → Accepts a.requests bs
      → flush_batches hub now bs a ≡ having_sent a bs
  unfolding flush_batches
  flush_all now a bs h = rw (append-nil bs) at (flush_prefix now a bs [] h)

  -- If the hub accepts every buffered batch, a flush delivers them all, oldest first and each once,
  -- and leaves the buffer empty.
  flush_buffer_delivers :
      (now : ℕ) (a : Agent V)
      → Accepts a.requests a.buffer.batches
      → ((flush_buffer hub now a).delivered ≡ a.delivered ++ a.buffer.batches)
        × ((flush_buffer hub now a).buffer.batches ≡ [])
  unfolding flush_buffer drain
  flush_buffer_delivers now a h =
      rw (flush_all now (record a { buffer = record a.buffer { batches = [] } }) a.buffer.batches h)
        (refl, refl)

  -- If the hub accepts the batches `pre` of a buffer and refuses the next one, a flush delivers
  -- `pre` and leaves that one batch in the buffer, whose `max_size` is at least 1: the batches
  -- behind it are neither delivered nor kept.
  pub flush_buffer_loses :
      (now : ℕ) (a : Agent V) (pre post : List (MetricBatch V)) (b : MetricBatch V)
      → a.buffer.batches ≡ pre ++ b ∷ post
      → 1 ≤ a.buffer.max_size
      → Accepts a.requests pre
      → classify (hub (a.requests + length pre) b) ≢ sent
      → ((flush_buffer hub now a).delivered ≡ a.delivered ++ pre)
        × ((flush_buffer hub now a).buffer.batches ≡ b ∷ [])
  unfolding flush_buffer drain
  flush_buffer_loses now a pre post b e fits h refused =
      let start = record a { buffer = record a.buffer { batches = [] } } in
      rw
        (
          e,
          flush_prefix now start pre (b ∷ post) h,
          flush_refused now (having_sent start pre) b post refused,
        )
        (refl, add_empty start.buffer b now refl fits)
