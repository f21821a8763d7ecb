-- ===== src/AgentMetrics/Groups.antt =====
-- internal/store/agent_metrics.go: each row has its group, no two groups have the same key, and a row
-- that is written stays.
use whatsupp.Base.{
  ◌≡◌, refl, sym, ap, subst, ◌∙◌, true, false, List, [], ◌∷◌, arith, eq_iff, Bool-cases, inl, inr,
  ◌⊎◌, All,
}
use whatsupp.AgentMetrics.{
  AgentMetricSummary, Held, same_key, add_to_groups, group_rows, upsert, upsert_all,
}

abbrev pub Group : Type 0 → Type 0
Group V = AgentMetricSummary V × List (AgentMetricSummary V)

module _ {V : Type 0} where
  pub upsert-new :
      (s : AgentMetricSummary V) (table : List (AgentMetricSummary V)) → Held s (upsert s table)
  unfolding upsert
  upsert-new s [] = inl refl
  upsert-new s (q ∷ table) = elim (Bool-cases (same_key q s)) [
    | inl same ↦ rw (same, upsert) (inl refl)
    | inr other ↦ rw (other, upsert) (inr (upsert-new s table))
  ]

  -- A row stays in the table unless one with its key and other values comes.
  pub upsert-old :
      (s r : AgentMetricSummary V) (table : List (AgentMetricSummary V))
      → (same_key r s ≡ true → s ≡ r)
      → Held r table
      → Held r (upsert s table)
  unfolding upsert
  upsert-old s r [] f h = absurd h
  upsert-old s r (q ∷ table) f (inl e) = elim (Bool-cases (same_key q s)) [
    | inl same ↦ rw (same, upsert) (inl (f (rw e at same)))
    | inr other ↦ rw (other, upsert) (inl e)
  ]
  upsert-old s r (q ∷ table) f (inr h) = elim (Bool-cases (same_key q s)) [
    | inl same ↦ rw (same, upsert) (inr h)
    | inr other ↦ rw (other, upsert) (inr (upsert-old s r table f h))
  ]

  pub upsert_all-old :
      (rows table : List (AgentMetricSummary V)) (r : AgentMetricSummary V)
      → ((s : AgentMetricSummary V) → Held s rows → same_key r s ≡ true → s ≡ r)
      → Held r table
      → Held r (upsert_all rows table)
  unfolding upsert_all
  upsert_all-old [] table r f h = h
  upsert_all-old (s ∷ rows) table r f h =
      upsert_all-old rows (upsert s table) r (λ q held. f q (inr held))
        (upsert-old s r table (f s (inl refl)) h)

  pub upsert_all-new :
      (rows table : List (AgentMetricSummary V)) (r : AgentMetricSummary V)
      → ((s : AgentMetricSummary V) → Held s rows → same_key r s ≡ true → s ≡ r)
      → Held r rows
      → Held r (upsert_all rows table)
  unfolding upsert_all
  upsert_all-new [] table r f h = absurd h
  upsert_all-new (s ∷ rows) table r f (inl e) =
      upsert_all-old rows (upsert s table) r (λ q held. f q (inr held))
        (rw (← e) (upsert-new s table))
  upsert_all-new (s ∷ rows) table r f (inr h) =
      upsert_all-new rows (upsert s table) r (λ q held. f q (inr held)) h

  abbrev pub HeldIn : Group V → List (Group V) → Type 0
  HeldIn g [] = ⊥
  HeldIn g (x ∷ gs) = (x ≡ g) ⊎ HeldIn g gs

  -- A group with the key of the row has the row in it.
  abbrev pub Covers : AgentMetricSummary V → List (Group V) → Type 0
  Covers s gs = (g : Group V) × HeldIn g gs × (same_key g.0 s ≡ true) × Held s (g.0 ∷ g.1)

  pub same_key_refl : (s : AgentMetricSummary V) → same_key s s ≡ true
  same_key_refl s = ground (arith, eq_iff s.host s.host, eq_iff s.metric_name s.metric_name)

  pub same_key_sym : (s q : AgentMetricSummary V) → same_key s q ≡ true → same_key q s ≡ true
  same_key_sym s q e = ground (
    arith,
    e,
    eq_iff s.host q.host,
    eq_iff q.host s.host,
    eq_iff s.metric_name q.metric_name,
    eq_iff q.metric_name s.metric_name,
  )

  pub same_key_trans :
      (s q r : AgentMetricSummary V)
      → same_key s q ≡ true
      → same_key q r ≡ true
      → same_key s r ≡ true
  same_key_trans s q r e f = ground (
    arith,
    e,
    f,
    eq_iff s.host q.host,
    eq_iff q.host r.host,
    eq_iff s.host r.host,
    eq_iff s.metric_name q.metric_name,
    eq_iff q.metric_name r.metric_name,
    eq_iff s.metric_name r.metric_name,
  )

  pub add-Covers-new :
      (s : AgentMetricSummary V) (gs : List (Group V)) → Covers s (add_to_groups s gs)
  unfolding add_to_groups
  add-Covers-new s [] = ((s, []), inl refl, same_key_refl s, inl refl)
  add-Covers-new s ((g, rest) ∷ gs) = elim (Bool-cases (same_key g s)) [
    | inl same ↦ rw (same, add_to_groups) ((s, g ∷ rest), inl refl, same_key_refl s, inl refl)
    | inr other ↦
        let (x, held, key, within) = add-Covers-new s gs in
        rw (other, add_to_groups) (x, inr held, key, within)
  ]

  pub add-Covers-old :
      (s r : AgentMetricSummary V) (gs : List (Group V))
      → Covers r gs
      → Covers r (add_to_groups s gs)
  unfolding add_to_groups
  add-Covers-old s r [] c = absurd c.1
  add-Covers-old s r ((g, rest) ∷ gs) (x, inl e, key, within) = elim (Bool-cases (same_key g s)) [
    | inl same ↦
        let key' : same_key g r ≡ true = ap (λ (y : Group V). same_key y.0 r) e ∙ key in
        let within' : Held r (g ∷ rest) =
          subst (λ (y : Group V). Held r (y.0 ∷ y.1)) (sym e) within in
        rw (same, add_to_groups)
          ((s, g ∷ rest), inl refl, same_key_trans s g r (same_key_sym g s same) key', inr within')
    | inr other ↦ rw (other, add_to_groups) (x, inl e, key, within)
  ]
  add-Covers-old s r ((g, rest) ∷ gs) (x, inr held, key, within) =
      elim (Bool-cases (same_key g s)) [
        | inl same ↦ rw (same, add_to_groups) (x, inr held, key, within)
        | inr other ↦
            let (y, held', key', within') = add-Covers-old s r gs (x, held, key, within) in
            rw (other, add_to_groups) (y, inr held', key', within')
      ]

  pub group_rows-Covers :
      (rows : List (AgentMetricSummary V)) (s : AgentMetricSummary V)
      → Held s rows
      → Covers s (group_rows rows)
  unfolding group_rows
  group_rows-Covers [] s h = absurd h
  group_rows-Covers (q ∷ rows) s (inl e) =
      subst (λ x. Covers x (add_to_groups q (group_rows rows))) e
        (add-Covers-new q (group_rows rows))
  group_rows-Covers (q ∷ rows) s (inr h) =
      add-Covers-old q s (group_rows rows) (group_rows-Covers rows s h)

  -- No two groups have the same key.
  unfoldable pub UniqueGroups : List (Group V) → Type 0
  UniqueGroups [] = Unit
  UniqueGroups (g ∷ gs) = All (λ x. same_key x.0 g.0 ≡ false) gs × UniqueGroups gs

  pub add-heads :
      (s h : AgentMetricSummary V) (gs : List (Group V))
      → same_key s h ≡ false
      → All (λ x. same_key x.0 h ≡ false) gs
      → All (λ x. same_key x.0 h ≡ false) (add_to_groups s gs)
  unfolding add_to_groups
  add-heads s h [] n ns = (n, tt)
  add-heads s h ((g, rest) ∷ gs) n (m, ms) = elim (Bool-cases (same_key g s)) [
    | inl same ↦ rw (same, add_to_groups) (n, ms)
    | inr other ↦ rw (other, add_to_groups) (m, add-heads s h gs n ms)
  ]

  pub same_key-false : (s q : AgentMetricSummary V) → same_key s q ≡ false → same_key q s ≡ false
  same_key-false s q e = elim (Bool-cases (same_key q s)) [
    | inl same ↦ absurd (ground (arith, e, same_key_sym q s same))
    | inr other ↦ other
  ]

  pub heads_same :
      (g s : AgentMetricSummary V) (gs : List (Group V))
      → same_key g s ≡ true
      → All (λ x. same_key x.0 g ≡ false) gs
      → All (λ x. same_key x.0 s ≡ false) gs
  heads_same g s [] e ns = tt
  heads_same g s (x ∷ gs) e (n, ns) = (
    elim (Bool-cases (same_key x.0 s)) [
      | inl same ↦ absurd (ground (arith, n, same_key_trans x.0 s g same (same_key_sym g s e)))
      | inr other ↦ other
    ],
    heads_same g s gs e ns,
  )

  pub add-UniqueGroups :
      (s : AgentMetricSummary V) (gs : List (Group V))
      → UniqueGroups gs
      → UniqueGroups (add_to_groups s gs)
  unfolding add_to_groups UniqueGroups
  add-UniqueGroups s [] u = (tt, tt)
  add-UniqueGroups s ((g, rest) ∷ gs) (u, us) = elim (Bool-cases (same_key g s)) [
    | inl same ↦ rw (same, add_to_groups) (heads_same g s gs same u, us)
    | inr other ↦
        rw (other, add_to_groups)
          (add-heads s g gs (same_key-false g s other) u, add-UniqueGroups s gs us)
  ]

  pub group_rows-UniqueGroups :
      (rows : List (AgentMetricSummary V)) → UniqueGroups (group_rows rows)
  unfolding group_rows
  group_rows-UniqueGroups [] = unfold UniqueGroups in tt
  group_rows-UniqueGroups (s ∷ rows) =
      add-UniqueGroups s (group_rows rows) (group_rows-UniqueGroups rows)
