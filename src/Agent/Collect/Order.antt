-- ===== src/Agent/Collect/Order.antt =====
-- internal/agent/agent.go: the results of the collectors, in whatever order they arrive.
use mathlib.Core.List.{Permᴰ}
use mathlib.Core.List.Permᴰ.{nil, cons, swap, trans, append_left, symm}
use whatsupp.Base.{
  ℕ, ◌≡◌, refl, sym, ap, subst, ◌∙◌, String, Bool, false, List, [], ◌∷◌, ◌++◌, map, none, some,
  arith, str_eq, eq_iff, if◌then◌else◌, keep_if, Permᴰ-keep_if, short_perm, keep_if-map,
  keep_if_comm, swap_front, Bool-cases, Option-cases, inl, inr,
}
use whatsupp.Agent.Buffer.{Metric}
use whatsupp.Agent.Backoff.{Backoff, delay, allow, failure, success}
use whatsupp.Agent.Collect.{Collector, CollectResult, start_collectors, take_results, collect}

module _ {V : Type 0} where
  abbrev metrics_of : CollectResult V → List (Metric V)
  metrics_of r = elim r.metrics [ none ↦ [] | some ms ↦ ms ]

  -- The metrics of the results, in their order.
  abbrev pub gathered : List (CollectResult V) → List (Metric V)
  gathered [] = []
  gathered (r ∷ rs) = metrics_of r ++ gathered rs

  Permᴰ-gathered :
      {rs rs' : List (CollectResult V)} → Permᴰ rs rs' → Permᴰ (gathered rs) (gathered rs')
  Permᴰ-gathered nil = nil
  Permᴰ-gathered (cons {a = a} {l₁ = k} {l₂ = l} e d) =
      subst (λ y. Permᴰ (metrics_of a ++ gathered k) (metrics_of y ++ gathered l)) e
        (append_left (metrics_of a) (Permᴰ-gathered d))
  Permᴰ-gathered (swap {a = a} {b = b} {b' = b'} {l = l} e f) =
      let from = gathered (a ∷ b ∷ l) in
      subst (λ y. Permᴰ from (gathered (y ∷ b' ∷ l))) f
        (subst (λ y. Permᴰ from (gathered (b ∷ y ∷ l))) e
          (swap_front (metrics_of a) (metrics_of b) (gathered l)))
  Permᴰ-gathered (trans d d') = trans (Permᴰ-gathered d) (Permᴰ-gathered d')

-- Throttles with the same settings and the same state of a name.
record Alike (b b' : Backoff) (name : String) : Type 0 where
  base : b'.base ≡ b.base
  max : b'.max ≡ b.max
  state : b'.state name ≡ b.state name

module _ {V : Type 0} (now : ℕ) where
  -- The throttle after one result.
  abbrev settle : CollectResult V → Backoff → Backoff
  settle r b = elim r.metrics [ none ↦ (failure b r.name now).0 | some ms ↦ (success b r.name).0 ]

  take-cons :
      (r : CollectResult V) (rs : List (CollectResult V)) (b : Backoff)
      → (take_results now (r ∷ rs) b).1 ≡ (take_results now rs (settle r b)).1
  unfolding take_results
  take-cons r rs b = ground arith

  settle-other :
      (r : CollectResult V) (b : Backoff) (name : String)
      → str_eq r.name name ≡ false
      → Alike b (settle r b) name
  unfolding failure success
  settle-other r b name e = record {
    base = ground arith;
    max = ground arith;
    state = ground (arith, e, eq_iff r.name name);
  }

  settle-Alike :
      (r : CollectResult V) (b b' : Backoff)
      → Alike b b' r.name
      → (settle r b').state r.name ≡ (settle r b).state r.name
  unfolding failure success delay
  settle-Alike r b b' h = ground (arith, h.base, h.max, h.state, eq_iff r.name r.name)

  named : String → CollectResult V → Bool
  named name r = str_eq r.name name

  take_none :
      (name : String) (rs : List (CollectResult V)) (b : Backoff)
      → keep_if (λ r. str_eq r.name name) rs ≡ []
      → (take_results now rs b).1.state name ≡ b.state name
  unfolding take_results
  take_none name [] b e = refl
  take_none name (r ∷ rs) b e = elim (Bool-cases (str_eq r.name name)) [
    | inl here ↦ absurd (ground (arith, e, here))
    | inr other ↦
        rw (take-cons r rs b)
          (take_none name rs (settle r b) (rw other at e) ∙ (settle-other r b name other).state)
  ]

  take_one :
      (x : CollectResult V) (rs : List (CollectResult V)) (b : Backoff)
      → keep_if (λ r. str_eq r.name x.name) rs ≡ x ∷ []
      → (take_results now rs b).1.state x.name ≡ (settle x b).state x.name
  take_one x [] b e = absurd (ground (arith, e))
  take_one x (r ∷ rs) b e = elim (Bool-cases (str_eq r.name x.name)) [
    | inl here ↦
        let same_result : r ≡ x = cc (rw here at e) in
        let others : keep_if (λ r. str_eq r.name x.name) rs ≡ [] = cc (rw here at e) in
        ap (λ c. c.state x.name) (take-cons r rs b)
        ∙ take_none x.name rs (settle r b) others
        ∙ ap (λ y. (settle y b).state x.name) same_result
    | inr other ↦ rw (take-cons r rs b) (
        take_one x rs (settle r b) (rw other at e)
        ∙ settle-Alike x b (settle r b) (settle-other r b x.name other))
  ]

  take-gathered :
      (rs : List (CollectResult V)) (b : Backoff) → (take_results now rs b).0 ≡ gathered rs
  unfolding take_results
  take-gathered [] b = refl
  take-gathered (r ∷ rs) b = elim (Option-cases r.metrics) [
    | inl missing ↦ rw (missing, take-gathered rs (failure b r.name now).0) refl
    | inr (ms, found) ↦ rw (found, take-gathered rs (success b r.name).0) refl
  ]

module _ {V : Type 0} (arrival : List (CollectResult V) → List (CollectResult V)) where
  -- In whatever order the results arrive: the state of a collector whose name no other has is
  -- what its own result makes of it if the throttle allows it, and is as before if it does not; and
  -- the metrics are those of the results, up to their order.
  pub collect_in_any_order :
      (now : ℕ) (cs : List (Collector V)) (b : Backoff) (c : Collector V)
      → ((rs : List (CollectResult V)) → Permᴰ (arrival rs) rs)
      → keep_if (λ d. str_eq d.name c.name) cs ≡ c ∷ []
      → ((collect arrival now cs b).1.state c.name ≡ (
          let settled : Backoff = elim (c.collect now) [
            | none ↦ (failure b c.name now).0
            | some ms ↦ (success b c.name).0
          ] in
          if allow b c.name now then settled.state c.name else b.state c.name))
        × Permᴰ (collect arrival now cs b).0 (gathered (start_collectors b now cs))
  unfolding collect start_collectors
  collect_in_any_order now cs b c h only =
      let rs = start_collectors b now cs in
      let f : Collector V → CollectResult V =
        λ d. record { name = d.name; metrics = d.collect now } in
      let own : keep_if (λ r. str_eq r.name c.name) rs
          ≡ map f (keep_if (λ d. allow b d.name now) (c ∷ [])) =
        keep_if-map f (λ r. str_eq r.name c.name) (keep_if (λ d. allow b d.name now) cs)
        ∙ ap (map f) (
            keep_if_comm (λ d. str_eq d.name c.name) (λ d. allow b d.name now) cs
            ∙ ap (keep_if (λ d. allow b d.name now)) only) in
      let theirs = Permᴰ-keep_if (λ r. str_eq r.name c.name) (symm (h rs)) in
      (
        elim (Bool-cases (allow b c.name now)) [
          | inl allowed ↦
              let alone = rw allowed at own in
              let same_one = short_perm theirs (rw alone (omega arith)) in
              rw allowed (take_one now (f c) (arrival rs) b (sym same_one ∙ alone))
          | inr waits ↦
              let alone = rw waits at own in
              let same_none = short_perm theirs (rw alone (omega arith)) in
              rw waits (take_none now c.name (arrival rs) b (sym same_none ∙ alone))
        ],
        rw (take-gathered now (arrival rs) b) (Permᴰ-gathered (h rs)),
      )
