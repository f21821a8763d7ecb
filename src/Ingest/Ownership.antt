-- ===== src/Ingest/Ownership.antt =====
-- internal/api: an agent writes only what belongs to its own host.
use whatsupp.Base.{
  ℕ, ◌≡◌, ◌≢◌, refl, sym, subst, ◌∙◌, String, List, [], ◌∷◌, ◌++◌, Option, none, some, arith,
  str_eq, eq_iff, ◌⊎◌, inl, inr, keep_if, map, Bool-cases,
}
use whatsupp.Agent.Buffer.{Metric}
use whatsupp.Ingest.{
  AgentMetricRow, AgentTables, AgentMetricsPayload, Faults, matched_host, agent_key_auth,
  metric_row, insert_agent_metrics_batch, upsert_heartbeat, update_agent_version, time_of,
  store_metrics, post_agent_metrics, push,
}

abbrev pub HasKey : String → String → List (String × String) → Type 0
HasKey host token [] = ⊥
HasKey host token ((h, k) ∷ keys) = ((h ≡ host) × (k ≡ token)) ⊎ HasKey host token keys

matched_host-HasKey :
    (token : String) (keys : List (String × String)) (before : String)
    → (matched_host token keys before ≡ before) ⊎ HasKey (matched_host token keys before) token keys
unfolding matched_host
matched_host-HasKey token [] before = inl refl
matched_host-HasKey token ((h, k) ∷ keys) before =
    let Found : String → Type 0 = λ x. (x ≡ before) ⊎ HasKey x token ((h, k) ∷ keys) in
    elim (Bool-cases (str_eq token k)) [
      | inl hit ↦
          let hit_step : matched_host token ((h, k) ∷ keys) before ≡ matched_host token keys h =
            ground (arith, hit) in
          subst Found (sym hit_step) (elim (matched_host-HasKey token keys h) [
            | inl e ↦ inr (inl (sym e, sym ((eq_iff token k).0 hit)))
            | inr l ↦ inr (inr l)
          ])
      | inr miss ↦
          let miss_step : matched_host token ((h, k) ∷ keys) before
              ≡ matched_host token keys before =
            ground (arith, miss) in
          subst Found (sym miss_step)
            (elim (matched_host-HasKey token keys before) [ inl e ↦ inl e | inr l ↦ inr (inr l) ])
    ]

module _ {V : Type 0} where
  abbrev pub rows_of : String → List (AgentMetricRow V) → List (AgentMetricRow V)
  rows_of host = keep_if (λ r. str_eq r.host host)

  rows_of-other :
      (host other : String) (at : ℕ) (ms : List (Metric V)) (rows : List (AgentMetricRow V))
      → host ≢ other
      → rows_of other (rows ++ map (metric_row host at) ms) ≡ rows_of other rows
  unfolding metric_row
  rows_of-other host other at [] [] d = refl
  rows_of-other host other at (m ∷ ms) [] d =
      ground (arith, d, eq_iff host other, rows_of-other host other at ms [] d)
  rows_of-other host other at ms (r ∷ rows) d =
      ground (arith, rows_of-other host other at ms rows d)

  store_metrics-other :
      (f : Faults) (now : ℕ) (p : AgentMetricsPayload V) (t : AgentTables V) (other : String)
      → p.host ≢ other
      → (rows_of other (store_metrics f now p t).1.agent_metrics ≡ rows_of other t.agent_metrics)
        × ((store_metrics f now p t).1.agent_heartbeats other ≡ t.agent_heartbeats other)
  unfolding store_metrics insert_agent_metrics_batch upsert_heartbeat update_agent_version
  store_metrics-other f now p t other d = ground (
    arith,
    d,
    eq_iff p.host other,
    rows_of-other p.host other (time_of p.timestamp now) p.metrics t.agent_metrics d,
  )

  -- A push changes nothing of a host for which the map of the keys does not hold its token: neither
  -- the stored metrics of that host nor its heartbeat.
  pub push_only_own_host :
      (keys : List (String × String)) (f : Faults) (now : ℕ) (token other : String)
      (body : Option (AgentMetricsPayload V)) (t : AgentTables V)
      → (HasKey other token keys → ⊥)
      → (rows_of other (push keys f now (some token) body t).1.agent_metrics
          ≡ rows_of other t.agent_metrics)
        × ((push keys f now (some token) body t).1.agent_heartbeats other
            ≡ t.agent_heartbeats other)
  unfolding push agent_key_auth post_agent_metrics
  push_only_own_host keys f now token other none t foreign = ground arith
  push_only_own_host keys f now token other (some p) t foreign =
      let host = matched_host token keys "" in
      elim (matched_host-HasKey token keys "") [
        | inl nobody ↦ ground (arith, nobody)
        | inr key ↦ elim (Bool-cases (str_eq p.host other)) [
          | inr differ ↦ ground (
            arith,
            store_metrics-other f now p t other (ground (arith, differ, eq_iff p.host other)),
          )
          | inl same ↦ elim (Bool-cases (str_eq p.host host)) [
            | inr refused ↦ ground (arith, refused)
            | inl mine ↦ absurd (
                foreign (
                  subst (λ k. HasKey k token keys)
                    (sym ((eq_iff p.host host).0 mine) ∙ (eq_iff p.host other).0 same) key))
          ]
        ]
      ]
