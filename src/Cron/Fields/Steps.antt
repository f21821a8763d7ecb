-- ===== src/Cron/Fields/Steps.antt =====
-- internal/hub/cron.go: the numbers that a step adds to a field.
use whatsupp.Base.{
  ℕ, zero, suc, ◌+◌, ◌*◌, ◌%◌, ◌≤◌, ◌<◌, ◌≡◌, refl, true, ◌↔◌, ◌∷◌, ◌++◌, arith, All, All-append,
  [], some, Bool-cases, inl, inr, ◌⊎◌,
}
use whatsupp.Cron.Text.{Codes, cut}
use native.Mathlib.Nat.{mul-suc}
use whatsupp.Cron.Fields.Digits.{
  decimal, atoi-decimal, decimal-IsPlain, decimal-IsDigit, IsDigit, IsPlain, split-last,
  trim_space-plain, is_star-decimal,
}
use whatsupp.Cron.Fields.{
  Values, no_values, ok, parse_cron_field, parse_parts, parse_part, parse_step, valid_step,
  start_of, add_value, at_most, add_range, rounds, two_64,
}

-- The number lies on the steps from `i`, and not above the maximum.
abbrev pub OnSteps : ℕ → ℕ → ℕ → ℕ → Type 0
OnSteps i step max n = (k : ℕ) × (n ≡ i + step * k) × (n ≤ max)

past_end : (i step max n : ℕ) → max < i → OnSteps i step max n → ⊥
past_end i step max n past (k, e, le) = omega (arith, e, le, past)

next_step : (i step max n : ℕ) → OnSteps (i + step) step max n → OnSteps i step max n
next_step i step max n (k, e, le) = (suc k, omega (arith, e, mul-suc step k), le)

prior_step : (i step max n : ℕ) → OnSteps i step max n → (i ≡ n) ⊎ OnSteps (i + step) step max n
prior_step i step max n (zero, e, le) = inl (omega (arith, e))
prior_step i step max n (suc k, e, le) = inr (k, omega (arith, e, mul-suc step k), le)

added_now :
    (v : ℕ) (values : Values) (n : ℕ) → add_value v values n ≡ true → (v ≡ n) ⊎ (values n ≡ true)
unfolding add_value
added_now v values n e = ground (arith, e)

added_last :
    (v : ℕ) (values : Values) (n : ℕ) → (v ≡ n) ⊎ (values n ≡ true) → add_value v values n ≡ true
unfolding add_value
added_last v values n e = ground (arith, e)

-- One round more.
one_round :
    (i step max : ℕ) (values : Values) (n : ℕ) (found : Type 0)
    → i ≤ max
    → (found ↔ ((add_value i values n ≡ true) ⊎ OnSteps (i + step) step max n))
    → found ↔ ((values n ≡ true) ⊎ OnSteps i step max n)
one_round i step max values n found low (ahead, back) = (
  λ f. elim (ahead f) [
    | inl v ↦ elim (added_now i values n v) [
      | inl same ↦ inr (0, omega (arith, same), omega (arith, same, low))
      | inr before ↦ inl before
    ]
    | inr on ↦ inr (next_step i step max n on)
  ],
  λ o. elim o [
    | inl v ↦ back (inl (added_last i values n (inr v)))
    | inr on ↦ elim (prior_step i step max n on) [
      | inl same ↦ back (inl (added_last i values n (inl same)))
      | inr later ↦ back (inr later)
    ]
  ],
)

add_range_lem :
    (fuel i step max : ℕ) (values : Values) (n : ℕ)
    → step < 100
    → 0 < step
    → max < 100
    → i < 200
    → max < i + fuel
    → (add_range fuel i step max values n ≡ true) ↔ ((values n ≡ true) ⊎ OnSteps i step max n)
unfolding add_range at_most
add_range_lem zero i step max values n h p m s f =
    (inl, λ o. elim o [ inl v ↦ v | inr on ↦ absurd (past_end i step max n (omega (arith, f)) on) ])
add_range_lem (suc fuel) i step max values n h p m s f = elim (Bool-cases (at_most i max)) [
  | inl more ↦
      let low : i ≤ max = ground (arith, more, s) in
      let sum : (i + step) % two_64 ≡ i + step = omega (arith, low, h, m) in
      let ih =
        add_range_lem fuel (i + step) step max (add_value i values) n h p m
          (omega (arith, low, h, m)) (omega (arith, f, p)) in
      rw (more, add_range, sum) (one_round i step max values n _ low ih)
  | inr over ↦
      let high : max < i = ground (arith, over, s) in
      rw (over, add_range)
        (inl, λ o. elim o [ inl v ↦ v | inr on ↦ absurd (past_end i step max n high on) ])
]

added_by_range :
    (i step max n : ℕ)
    → step < 100
    → 0 < step
    → max < 100
    → i < 200
    → (add_range rounds i step max no_values n ≡ true) ↔ OnSteps i step max n
added_by_range i step max n h p m s =
    let lem = add_range_lem rounds i step max no_values n h p m s (omega (arith, m)) in
    (λ f. elim (lem.0 f) [ inl v ↦ absurd (ground (arith, v)) | inr on ↦ on ], λ on. lem.1 (inr on))

cut-step : (w cs : Codes) → All IsDigit w → cut 47 (w ++ 47 ∷ cs) ≡ some (w, cs)
unfolding cut
cut-step [] cs d = refl
cut-step (c ∷ w) cs (d, ds) = ground (arith, d, cut-step w cs ds)

-- A field of one part with a step in it.
parse_cron_field-step :
    (k min max start : ℕ) (before field : Codes)
    → k < 100
    → 0 < k
    → All IsPlain field
    → cut 47 field ≡ some (before, decimal k)
    → start_of min before ≡ some start
    → parse_cron_field field min max ≡ ok (add_range rounds start k max no_values)
unfolding parse_cron_field parse_parts parse_part parse_step valid_step
parse_cron_field-step k min max start before field hk pk plain halves started =
    rw (split-last field plain, trim_space-plain field plain)
      (ground (arith, halves, started, atoi-decimal k hk, hk, pk))

-- A field "M/N" of a step N from 1 to 99 and a start M below 100, whatever the lower bound of the
-- field, holds the numbers M, M + N, M + 2 N and so on up to the upper bound; a field "*/N" holds those
-- from the lower bound on.
parse_cron_field-steps :
    (m k min max : ℕ)
    → m < 100
    → 0 < k
    → k < 100
    → min < 100
    → max < 100
    → ((s : Values) × (parse_cron_field (decimal m ++ 47 ∷ decimal k) min max ≡ ok s)
        × ((n : ℕ) → (s n ≡ true) ↔ OnSteps m k max n))
      × ((s : Values) × (parse_cron_field (42 ∷ 47 ∷ decimal k) min max ≡ ok s)
          × ((n : ℕ) → (s n ≡ true) ↔ OnSteps min k max n))
parse_cron_field-steps m k min max hm pk hk hmin hmax = (
  (
    add_range rounds m k max no_values,
    parse_cron_field-step k min max m (decimal m) (decimal m ++ 47 ∷ decimal k) hk pk
        (All-append IsPlain (decimal m) (47 ∷ decimal k) (decimal-IsPlain m hm)
          ((omega arith, omega arith, omega arith), decimal-IsPlain k hk))
        (cut-step (decimal m) (decimal k) (decimal-IsDigit m hm))
        (unfold start_of in rw (is_star-decimal m) (atoi-decimal m hm)),
    λ n. added_by_range m k max n hk pk hmax (omega (arith, hm)),
  ),
  (
    add_range rounds min k max no_values,
    parse_cron_field-step k min max min (42 ∷ []) (42 ∷ 47 ∷ decimal k) hk pk
        (
          (omega arith, omega arith, omega arith),
          ((omega arith, omega arith, omega arith), decimal-IsPlain k hk),
        )
        (unfold cut in refl) (unfold start_of in refl),
    λ n. added_by_range min k max n hk pk hmax (omega (arith, hmin)),
  ),
)
