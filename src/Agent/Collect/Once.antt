-- ===== src/Agent/Collect/Once.antt =====
-- internal/agent/agent.go: what the loop of the agent delivers.
use mathlib.Core.List.{append-nil, append_assoc}
use whatsupp.Base.{
  ℕ, zero, suc, ◌+◌, ◌-◌, ◌≤◌, ◌≡◌, ◌≢◌, ◌⊎◌, refl, sym, ap, ◌∙◌, String, Bool, List, [], ◌∷◌, ◌++◌,
  arith, ltb, length, drop, keep_if, inl, inr,
}
use whatsupp.Agent.{Agent, Transport, after_send, flush_batches, flush_buffer, push_batch}
use whatsupp.Agent.Buffer.{MetricBatch, MetricBuffer, add, drop_oldest, drain}
use whatsupp.Agent.Flush.{having_sent, flush_accepted, flush_refused}
use whatsupp.Agent.Push.{sent, retriable, unauthorized, unexpected_status, SendResult, classify}
use whatsupp.Agent.Collect.{AgentLoop, CollectResult, Tick, next_batch, collect_and_push, run}

sent-cases : (r : SendResult) → (r ≡ sent) ⊎ (r ≢ sent)
sent-cases sent = inl refl
sent-cases retriable = inr (ground arith)
sent-cases unauthorized = inr (ground arith)
sent-cases unexpected_status = inr (ground arith)

module _ {V : Type 0} (hub : Transport V) where
  push_accepted :
      (now : ℕ) (b : MetricBatch V) (a : Agent V)
      → classify (hub (flush_buffer hub now a).requests b) ≡ sent
      → push_batch hub now b a ≡ having_sent hub (flush_buffer hub now a) (b ∷ [])
  unfolding push_batch after_send
  push_accepted now b a e = ground (arith, e)

  push_refused :
      (now : ℕ) (b : MetricBatch V) (a : Agent V)
      → classify (hub (flush_buffer hub now a).requests b) ≢ sent
      → let flushed = flush_buffer hub now a in
        push_batch hub now b a
        ≡ record flushed { requests = flushed.requests + 1; buffer = add flushed.buffer b now }
  unfolding push_batch after_send
  push_refused now b a e = ground (arith, e)

module _ {V : Type 0} (p : MetricBatch V → Bool) where
  -- The batches of a list that pass the test.
  abbrev pub count : List (MetricBatch V) → ℕ
  count bs = length (keep_if p bs)

  count-append : (xs ys : List (MetricBatch V)) → count (xs ++ ys) ≡ count xs + count ys
  count-append [] ys = omega arith
  count-append (x ∷ xs) ys = ground (arith, count-append xs ys)

  count-drop-le : (n : ℕ) (xs : List (MetricBatch V)) → count (drop n xs) ≤ count xs
  count-drop-le zero xs = omega arith
  count-drop-le (suc n) [] = omega arith
  count-drop-le (suc n) (x ∷ xs) = ground (arith, count-drop-le n xs)

  count-keep_if-le :
      (q : MetricBatch V → Bool) (xs : List (MetricBatch V)) → count (keep_if q xs) ≤ count xs
  count-keep_if-le q [] = omega arith
  count-keep_if-le q (x ∷ xs) = ground (arith, count-keep_if-le q xs)

  count-add-le :
      (b : MetricBuffer V) (x : MetricBatch V) (now : ℕ)
      → count (add b x now).batches ≤ count b.batches + count (x ∷ [])
  unfolding add drop_oldest
  count-add-le b x now =
      let fresh = λ (e : MetricBatch V). ltb now (e.timestamp + b.max_age) in
      let valid = keep_if fresh b.batches in
      let all = valid ++ x ∷ [] in
      ground (
        arith,
        count-append valid (x ∷ []),
        count-keep_if-le fresh b.batches,
        count-drop-le (length all - b.max_size) all,
      )

  -- The batches that the agent has delivered or buffers.
  abbrev pub held : Agent V → ℕ
  held a = count a.delivered + count a.buffer.batches

  module _ (hub : Transport V) where
    flush_batches-held :
        (now : ℕ) (bs : List (MetricBatch V)) (a : Agent V)
        → held (flush_batches hub now bs a) ≤ count bs + held a
    unfolding flush_batches
    flush_batches-held now [] a = omega arith
    flush_batches-held now (b ∷ bs) a = elim (sent-cases (classify (hub a.requests b))) [
      | inl ok ↦
          let next = having_sent hub a (b ∷ []) in
          let rest = flush_batches-held now bs next in
          rw (flush_accepted hub now a b bs ok)
            (ground (arith, rest, count-append a.delivered (b ∷ [])))
      | inr failed ↦
          rw (flush_refused hub now a b bs failed) (ground (arith, count-add-le a.buffer b now))
    ]

    flush_buffer-held : (now : ℕ) (a : Agent V) → held (flush_buffer hub now a) ≤ held a
    unfolding flush_buffer drain
    flush_buffer-held now a =
        let emptied = record a { buffer = record a.buffer { batches = [] } } in
        ground (arith, flush_batches-held now a.buffer.batches emptied)

    push_batch-held :
        (now : ℕ) (b : MetricBatch V) (a : Agent V)
        → held (push_batch hub now b a) ≤ count (b ∷ []) + held a
    push_batch-held now b a =
        let flushed = flush_buffer hub now a in
        let before = flush_buffer-held now a in
        elim (sent-cases (classify (hub flushed.requests b))) [
          | inl ok ↦
              rw (push_accepted hub now b a ok)
                (ground (arith, before, count-append flushed.delivered (b ∷ [])))
          | inr failed ↦
              rw (push_refused hub now b a failed)
                (ground (arith, before, count-add-le flushed.buffer b now))
        ]

module _ {V : Type 0} (arrival : List (CollectResult V) → List (CollectResult V))
    (hub : Transport V) (version : String) where
  -- The batches that the ticks make.
  abbrev pub made : List Tick → AgentLoop V → List (MetricBatch V)
  made [] a = []
  made (t ∷ ts) a =
      (next_batch arrival version t a).0 ∷ made ts (collect_and_push arrival hub version t a)

  -- Whatever the hub answers, and for any test on batches: the batches that pass the test and that
  -- the loop has delivered or still buffers at its end are no more than those that its ticks make
  -- and those that were delivered or buffered at its start.
  pub sent_once :
      (p : MetricBatch V → Bool) (ts : List Tick) (done : ℕ) (a : AgentLoop V)
      → held p (run arrival hub version ts done a).pushes ≤ count p (made ts a) + held p a.pushes
  unfolding run collect_and_push
  sent_once p [] done a = omega (arith, flush_buffer-held p hub done a.pushes)
  sent_once p (t ∷ ts) done a =
      let next = collect_and_push arrival hub version t a in
      let b = (next_batch arrival version t a).0 in
      let rest = made ts next in
      ground (
        arith,
        sent_once p ts done next,
        push_batch-held p hub t.pushed b a.pushes,
        count-append p (b ∷ []) rest,
      )

  flush_nothing : (now : ℕ) (a : Agent V) → a.buffer.batches ≡ [] → flush_buffer hub now a ≡ a
  unfolding flush_buffer flush_batches drain
  flush_nothing now a e = ground (arith, e)

  -- If the hub accepts every request and the buffer is empty at the start, the loop delivers the
  -- batch of each tick, each once and in the order of the ticks, and ends with an empty buffer.
  pub run_delivers :
      (ts : List Tick) (done : ℕ) (a : AgentLoop V)
      → ((n : ℕ) (b : MetricBatch V) → classify (hub n b) ≡ sent)
      → a.pushes.buffer.batches ≡ []
      → ((run arrival hub version ts done a).pushes.delivered ≡ a.pushes.delivered ++ made ts a)
        × ((run arrival hub version ts done a).pushes.buffer.batches ≡ [])
  unfolding run collect_and_push
  run_delivers [] done a ok e = rw (flush_nothing done a.pushes e) (sym (append-nil _), e)
  run_delivers (t ∷ ts) done a ok e =
      let next = collect_and_push arrival hub version t a in
      let b = (next_batch arrival version t a).0 in
      let pushed : next.pushes ≡ having_sent hub a.pushes (b ∷ []) =
        push_accepted hub t.pushed b a.pushes (ok _ b)
        ∙ ap (λ x. having_sent hub x (b ∷ [])) (flush_nothing t.pushed a.pushes e) in
      let ih = run_delivers ts done next ok (ap (λ x. x.buffer.batches) pushed ∙ e) in
      (
        ih.0
            ∙ ap (λ x. x.delivered ++ made ts next) pushed
            ∙ append_assoc a.pushes.delivered (b ∷ []) (made ts next),
        ih.1,
      )
