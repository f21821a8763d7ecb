-- ===== src/Agent/Buffer/Laws.antt =====
-- internal/agent/buffer.go: what the buffer holds after `Add`.
use whatsupp.Base.{
  ℕ, zero, suc, ◌+◌, ◌-◌, ◌≤◌, ◌<◌, ◌≡◌, List, [], ◌∷◌, ◌++◌, arith, ltb, length, drop, keep_if,
  length-append, length-drop, drop-append, All, All-append, All-drop, Bool-cases, inl, inr,
}
use whatsupp.Agent.Buffer.{MetricBatch, MetricBuffer, drop_oldest, add}

module _ {V : Type 0} where
  length-drop_oldest-le :
      (max_size : ℕ) (bs : List (MetricBatch V)) → length (drop_oldest max_size bs) ≤ max_size
  unfolding drop_oldest
  length-drop_oldest-le max_size bs = ground (arith, length-drop (length bs - max_size) bs)

  -- Each batch is no older than `max_age` at the time `now`.
  abbrev pub IsFresh : MetricBuffer V → ℕ → MetricBatch V → Type 0
  IsFresh b now x = now < x.timestamp + b.max_age

  -- Timestamps rise along the list, from `lo` on.
  abbrev pub Rising : ℕ → List (MetricBatch V) → Type 0
  Rising lo [] = Unit
  Rising lo (b ∷ bs) = (lo ≤ b.timestamp) × Rising b.timestamp bs

  Rising-mono : {lo lo' : ℕ} (bs : List (MetricBatch V)) → lo' ≤ lo → Rising lo bs → Rising lo' bs
  Rising-mono [] h r = tt
  Rising-mono (b ∷ bs) h r = (omega arith, r.1)

  Rising-drop : (n lo : ℕ) (bs : List (MetricBatch V)) → Rising lo bs → Rising lo (drop n bs)
  Rising-drop zero lo bs r = r
  Rising-drop (suc n) lo [] r = r
  Rising-drop (suc n) lo (b ∷ bs) r = Rising-drop n lo bs (Rising-mono bs r.0 r.1)

  -- The buffer after the batches that are too old are gone and `x` has come.
  module _ (now age : ℕ) (x : MetricBatch V) where
    young : List (MetricBatch V) → List (MetricBatch V)
    young bs = keep_if (λ e. ltb now (e.timestamp + age)) bs

    All-young : (bs : List (MetricBatch V)) → All (λ e. now < e.timestamp + age) (young bs)
    unfolding young
    All-young [] = tt
    All-young (b ∷ bs) = ground (arith, All-young bs)

    Rising-young :
        (lo : ℕ) (bs : List (MetricBatch V))
        → Rising lo bs
        → All (λ e. e.timestamp ≤ x.timestamp) bs
        → lo ≤ x.timestamp
        → Rising lo (young bs ++ x ∷ [])
    unfolding young
    Rising-young lo [] r h le = (le, tt)
    Rising-young lo (b ∷ bs) r h le =
        let rest = Rising-young b.timestamp bs r.1 h.1 h.0 in
        elim (Bool-cases (ltb now (b.timestamp + age))) [
          | inl keep ↦ rw keep (r.0, rest)
          | inr old ↦ rw old (Rising-mono _ r.0 rest)
        ]

  All-weaken :
      (now age : ℕ) (x : MetricBatch V) (bs : List (MetricBatch V))
      → now < x.timestamp + age
      → All (λ e. now < e.timestamp + age) (young now age x bs ++ x ∷ [])
  All-weaken now age x bs h =
      All-append _ (young now age x bs) (x ∷ []) (All-young now age x bs) (h, tt)

  Rising-drop_oldest :
      (max_size : ℕ) (bs : List (MetricBatch V)) → Rising 0 bs → Rising 0 (drop_oldest max_size bs)
  unfolding drop_oldest
  Rising-drop_oldest max_size bs r = elim (Bool-cases (ltb max_size (length bs))) [
    | inl over ↦ rw over (Rising-drop (length bs - max_size) 0 bs r)
    | inr fits ↦ rw fits r
  ]

  All-drop_oldest :
      (P : MetricBatch V → Type 0) (max_size : ℕ) (bs : List (MetricBatch V))
      → All P bs
      → All P (drop_oldest max_size bs)
  unfolding drop_oldest
  All-drop_oldest P max_size bs h = elim (Bool-cases (ltb max_size (length bs))) [
    | inl over ↦ rw over (All-drop P (length bs - max_size) bs h)
    | inr fits ↦ rw fits h
  ]

  drop_oldest-append :
      (max_size : ℕ) (bs : List (MetricBatch V)) (x : MetricBatch V)
      → 1 ≤ max_size
      → drop_oldest max_size (bs ++ x ∷ []) ≡ drop (length bs + 1 - max_size) bs ++ x ∷ []
  unfolding drop_oldest
  drop_oldest-append max_size bs x h =
      rw (length-append bs (x ∷ []))
        (ground (arith, drop-append (length bs + 1 - max_size) bs (x ∷ [])))

  -- After `Add` of a batch that is young enough, to a buffer in the order of its timestamps that
  -- holds none later than the new one: there are at most `max_size` batches, each is younger than
  -- `max_age`, and they are in the order of their timestamps.
  add_bounded :
      (b : MetricBuffer V) (x : MetricBatch V) (now : ℕ)
      → now < x.timestamp + b.max_age
      → Rising 0 b.batches
      → All (λ e. e.timestamp ≤ x.timestamp) b.batches
      → (length (add b x now).batches ≤ b.max_size)
        × All (IsFresh b now) (add b x now).batches
        × Rising 0 (add b x now).batches
  unfolding add young
  add_bounded b x now h r le =
      let bs = young now b.max_age x b.batches ++ x ∷ [] in
      (
        length-drop_oldest-le b.max_size bs,
        All-drop_oldest _ b.max_size bs (All-weaken now b.max_age x b.batches h),
        Rising-drop_oldest b.max_size bs
            (Rising-young now b.max_age x 0 b.batches r le (omega arith)),
      )

  -- With a `max_size` of at least 1, `Add` keeps the new batch, last, behind the newest of the
  -- batches that are young enough, as many of them as fit.
  pub add_keeps_newest :
      (b : MetricBuffer V) (x : MetricBatch V) (now : ℕ)
      → 1 ≤ b.max_size
      → let valid = keep_if (λ e. ltb now (e.timestamp + b.max_age)) b.batches in
        (add b x now).batches ≡ drop (length valid + 1 - b.max_size) valid ++ x ∷ []
  unfolding add
  add_keeps_newest b x now h =
      drop_oldest-append b.max_size (keep_if (λ e. ltb now (e.timestamp + b.max_age)) b.batches) x h

  -- A batch added to an empty buffer is all that it holds.
  pub add_empty :
      (b : MetricBuffer V) (x : MetricBatch V) (now : ℕ)
      → b.batches ≡ []
      → 1 ≤ b.max_size
      → (add b x now).batches ≡ x ∷ []
  unfolding add drop_oldest
  add_empty b x now e h = ground arith
