-- ===== src/AgentMetrics/Enclosing.antt =====
-- internal/store/agent_metrics.go: the aggregates of five minutes, hours and days enclose the values that
-- they are made from.
use whatsupp.Base.{
  ℕ, ◌*◌, ◌/◌, ◌≡◌, sym, ap, subst, ◌∙◌, Bool, true, false, List, [], ◌∷◌, arith, if◌then◌else◌,
  keep_if, map, Bool-cases, inl, inr, ◌⊎◌, All,
}
use whatsupp.Ingest.{AgentMetricRow}
use whatsupp.AgentMetrics.{
  AgentMetricSummary, MetricTables, Database, DatabaseLaws, Held, same_key, group_rows, set_bucket,
  upsert_all, as_summary, least, greatest, merge, grouped, in_window, aggregate_agent_metrics_5min,
  aggregate_agent_metrics_hourly, aggregate_agent_metrics_daily,
}
use whatsupp.AgentMetrics.Groups.{
  Group, upsert_all-new, HeldIn, same_key_sym, group_rows-Covers, UniqueGroups,
  group_rows-UniqueGroups,
}

module _ {A : Type 0} where
  abbrev pub IsIn : A → List A → Type 0
  IsIn a [] = ⊥
  IsIn a (x ∷ xs) = (x ≡ a) ⊎ IsIn a xs

  IsIn-keep_if :
      (p : A → Bool) (a : A) (xs : List A) → p a ≡ true → IsIn a xs → IsIn a (keep_if p xs)
  IsIn-keep_if p a [] e h = h
  IsIn-keep_if p a (x ∷ xs) e (inl same) = rw (ap p same ∙ e) (inl same)
  IsIn-keep_if p a (x ∷ xs) e (inr h) = elim (Bool-cases (p x)) [
    | inl passed ↦ rw passed (inr (IsIn-keep_if p a xs e h))
    | inr gone ↦ rw gone (IsIn-keep_if p a xs e h)
  ]

IsIn-map : {A B : Type 0} (f : A → B) (a : A) (xs : List A) → IsIn a xs → IsIn (f a) (map f xs)
IsIn-map f a [] h = absurd h
IsIn-map f a (x ∷ xs) (inl e) = inl (ap f e)
IsIn-map f a (x ∷ xs) (inr h) = inr (IsIn-map f a xs h)

module _ {V : Type 0} where
  Held-map :
      {A : Type 0} (f : A → AgentMetricSummary V) (a : A) (xs : List A)
      → IsIn a xs
      → Held (f a) (map f xs)
  Held-map f a [] h = absurd h
  Held-map f a (x ∷ xs) (inl e) = inl (ap f e)
  Held-map f a (x ∷ xs) (inr h) = inr (Held-map f a xs h)

module _ {V : Type 0} (db : Database V) (laws : DatabaseLaws db) where
  -- The minimum and the maximum of a row are on the two sides of those of another.
  abbrev pub Encloses : AgentMetricSummary V → AgentMetricSummary V → Type 0
  Encloses m s = (db.leq m.min s.min ≡ true) × (db.leq s.max m.max ≡ true)

  lower_left : (v l : V) → db.leq (if db.leq v l then v else l) v ≡ true
  lower_left v l = elim (Bool-cases (db.leq v l)) [
    | inl below ↦ rw below (laws.leq_refl v)
    | inr above ↦ rw above (laws.leq_total v l above)
  ]

  lower_right : (v l w : V) → db.leq l w ≡ true → db.leq (if db.leq v l then v else l) w ≡ true
  lower_right v l w h = elim (Bool-cases (db.leq v l)) [
    | inl below ↦ rw below (laws.leq_trans v l w below h)
    | inr above ↦ rw above h
  ]

  upper_left : (v l : V) → db.leq v (if db.leq v l then l else v) ≡ true
  upper_left v l = elim (Bool-cases (db.leq v l)) [
    | inl below ↦ ap (λ b. db.leq v (if b then l else v)) below ∙ below
    | inr above ↦ ap (λ b. db.leq v (if b then l else v)) above ∙ laws.leq_refl v
  ]

  upper_right : (v l w : V) → db.leq w l ≡ true → db.leq w (if db.leq v l then l else v) ≡ true
  upper_right v l w h = elim (Bool-cases (db.leq v l)) [
    | inl below ↦ ap (λ b. db.leq w (if b then l else v)) below ∙ h
    | inr above ↦
        ap (λ b. db.leq w (if b then l else v)) above
        ∙ laws.leq_trans w l v h (laws.leq_total v l above)
  ]

  least-le :
      (g s : AgentMetricSummary V) (rest : List (AgentMetricSummary V))
      → Held s (g ∷ rest)
      → db.leq (least db g.min (map (λ q. q.min) rest)) s.min ≡ true
  unfolding least
  least-le g s [] (inl e) = rw (← e) (laws.leq_refl g.min)
  least-le g s [] (inr h) = absurd h
  least-le g s (q ∷ rest) (inl e) =
      rw (← e) (lower_left g.min (least db q.min (map (λ x. x.min) rest)))
  least-le g s (q ∷ rest) (inr h) =
      lower_right g.min (least db q.min (map (λ x. x.min) rest)) s.min (least-le q s rest h)

  greatest-ge :
      (g s : AgentMetricSummary V) (rest : List (AgentMetricSummary V))
      → Held s (g ∷ rest)
      → db.leq s.max (greatest db g.max (map (λ q. q.max) rest)) ≡ true
  unfolding greatest
  greatest-ge g s [] (inl e) = rw (← e) (laws.leq_refl g.max)
  greatest-ge g s [] (inr h) = absurd h
  greatest-ge g s (q ∷ rest) (inl e) =
      rw (← e) (upper_left g.max (greatest db q.max (map (λ x. x.max) rest)))
  greatest-ge g s (q ∷ rest) (inr h) =
      upper_right g.max (greatest db q.max (map (λ x. x.max) rest)) s.max (greatest-ge q s rest h)

  merge-Encloses :
      (g : Group V) (s : AgentMetricSummary V) → Held s (g.0 ∷ g.1) → Encloses (merge db g) s
  unfolding merge
  merge-Encloses (g, rest) s h = (least-le g s rest h, greatest-ge g s rest h)

  Held-merge :
      (g : Group V) (gs : List (Group V)) → HeldIn g gs → Held (merge db g) (map (merge db) gs)
  Held-merge g [] h = absurd h
  Held-merge g (x ∷ gs) (inl e) = inl (ap (merge db) e)
  Held-merge g (x ∷ gs) (inr h) = inr (Held-merge g gs h)

  merged-other :
      (m h : AgentMetricSummary V) (gs : List (Group V))
      → All (λ x. same_key x.0 h ≡ false) gs
      → Held m (map (merge db) gs)
      → same_key m h ≡ false
  unfolding merge
  merged-other m h [] ns held = absurd held
  merged-other m h ((g, rest) ∷ gs) (n, ns) (inl e) = subst (λ y. same_key y h ≡ false) e n
  merged-other m h (x ∷ gs) (n, ns) (inr held) = merged-other m h gs ns held

  merged_unique :
      (gs : List (Group V)) (m q : AgentMetricSummary V)
      → UniqueGroups gs
      → Held m (map (merge db) gs)
      → Held q (map (merge db) gs)
      → same_key m q ≡ true
      → q ≡ m
  unfolding UniqueGroups merge
  merged_unique [] m q u h k e = absurd h
  merged_unique (x ∷ gs) m q (u, us) (inl a) (inl b) e = sym b ∙ a
  merged_unique ((g, rest) ∷ gs) m q (u, us) (inl a) (inr k) e =
      let e' : same_key g q ≡ true = subst (λ y. same_key y q ≡ true) (sym a) e in
      absurd (ground (arith, merged-other q g gs u k, same_key_sym g q e'))
  merged_unique ((g, rest) ∷ gs) m q (u, us) (inr h) (inl b) e =
      let e' : same_key m g ≡ true = subst (λ y. same_key m y ≡ true) (sym b) e in
      absurd (ground (arith, merged-other m g gs u h, e'))
  merged_unique (x ∷ gs) m q (u, us) (inr h) (inr k) e = merged_unique gs m q us h k e

  -- After an upsert of the groups, the table has a row with the key of each grouped row, which
  -- encloses it.
  abbrev pub Enclosed : AgentMetricSummary V → List (AgentMetricSummary V) → Type 0
  Enclosed s table =
      (m : AgentMetricSummary V) × Held m table × (same_key m s ≡ true) × Encloses m s

  upsert_grouped-Enclosed :
      (rows table : List (AgentMetricSummary V)) (s : AgentMetricSummary V)
      → Held s rows
      → Enclosed s (upsert_all (grouped db rows) table)
  unfolding grouped
  upsert_grouped-Enclosed rows table s h =
      let (g, held, key, within) = group_rows-Covers rows s h in
      let gs = group_rows rows in
      let m = merge db g in
      let merged = Held-merge g gs held in
      (
        m,
        upsert_all-new (grouped db rows) table m
            (λ q k e.
              merged_unique gs m q (group_rows-UniqueGroups rows) merged
                (laws.group_order_adds_none q (map (merge db) gs) k) e)
            (laws.group_order_loses_none m (map (merge db) gs) merged),
        unfold merge in key,
        merge-Encloses g s within,
      )

  -- The 5-minute table after an aggregation has, for every raw row of the window, a row of its host and
  -- metric for the five minutes around it, whose minimum and maximum enclose the raw value.
  pub aggregate_5min_encloses :
      (from to : ℕ) (t : MetricTables V) (r : AgentMetricRow V)
      → IsIn r t.agent_metrics
      → in_window from to r.timestamp ≡ true
      → Enclosed
          (record (as_summary r) { bucket = r.timestamp / 300 * 300 })
          (aggregate_agent_metrics_5min db from to t).agent_metrics_5min
  unfolding aggregate_agent_metrics_5min as_summary
  aggregate_5min_encloses from to t r held inside =
      let kept = IsIn-keep_if (λ x. in_window from to x.timestamp) r t.agent_metrics inside held in
      let rows =
        keep_if (λ (x : AgentMetricRow V). in_window from to x.timestamp) t.agent_metrics in
      upsert_grouped-Enclosed (map (set_bucket λ b. b / 300 * 300) (map as_summary rows))
        t.agent_metrics_5min (record (as_summary r) { bucket = r.timestamp / 300 * 300 })
        (Held-map (set_bucket λ b. b / 300 * 300) (as_summary r) (map as_summary rows)
          (IsIn-map as_summary r rows kept))

  -- The hourly table after an aggregation has, for every 5-minute row of the hour, a row of its host and
  -- metric for the hour, whose minimum and maximum enclose those of the 5-minute row.
  pub aggregate_hourly_encloses :
      (hour_start hour_end : ℕ) (t : MetricTables V) (s : AgentMetricSummary V)
      → IsIn s t.agent_metrics_5min
      → in_window hour_start hour_end s.bucket ≡ true
      → Enclosed
          (record s { bucket = hour_start })
          (aggregate_agent_metrics_hourly db hour_start hour_end t).agent_metrics_hourly
  unfolding aggregate_agent_metrics_hourly
  aggregate_hourly_encloses hour_start hour_end t s held inside =
      let window : AgentMetricSummary V → Bool = λ x. in_window hour_start hour_end x.bucket in
      let rows = keep_if window t.agent_metrics_5min in
      upsert_grouped-Enclosed (map (set_bucket λ b. hour_start) rows) t.agent_metrics_hourly
        (record s { bucket = hour_start })
        (Held-map (set_bucket λ b. hour_start) s rows
          (IsIn-keep_if window s t.agent_metrics_5min inside held))

  -- The daily table after an aggregation has, for every hourly row of the day, a row of its host and
  -- metric for the day, whose minimum and maximum enclose those of the hourly row.
  pub aggregate_daily_encloses :
      (day_start day_end : ℕ) (t : MetricTables V) (s : AgentMetricSummary V)
      → IsIn s t.agent_metrics_hourly
      → in_window day_start day_end s.bucket ≡ true
      → Enclosed
          (record s { bucket = day_start })
          (aggregate_agent_metrics_daily db day_start day_end t).agent_metrics_daily
  unfolding aggregate_agent_metrics_daily
  aggregate_daily_encloses day_start day_end t s held inside =
      let window : AgentMetricSummary V → Bool = λ x. in_window day_start day_end x.bucket in
      let rows = keep_if window t.agent_metrics_hourly in
      upsert_grouped-Enclosed (map (set_bucket λ b. day_start) rows) t.agent_metrics_daily
        (record s { bucket = day_start })
        (Held-map (set_bucket λ b. day_start) s rows
          (IsIn-keep_if window s t.agent_metrics_hourly inside held))
