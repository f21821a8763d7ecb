-- ===== src/Cron/Next.antt =====
-- internal/hub/cron.go: the minute found is the first one that fires, and one that fires is found.
use whatsupp.Base.{
  ℕ, zero, suc, ◌+◌, ◌*◌, ◌/◌, ◌≤◌, ◌<◌, ◌≡◌, true, false, Option, none, some, arith, ltb,
  Bool-cases, ◌⊎◌, inl, inr, ltb→lt,
}
use whatsupp.Cron.{Calendar, Schedule, minute, fires, scan_minutes, horizon, next_cron_time}

-- What the search from `n` on, up to `limit`, must answer.
abbrev pub IsFirst : Calendar → Schedule → ℕ → ℕ → Option ℕ → Type 0
IsFirst cal s limit n none = (k : ℕ) → n ≤ k → k * minute < limit → fires cal s k ≡ false
IsFirst cal s limit n (some m) =
    (n ≤ m)
    × (m * minute < limit)
    × (fires cal s m ≡ true)
    × ((k : ℕ) → n ≤ k → k < m → fires cal s k ≡ false)

at_or_after : (n k : ℕ) → n ≤ k → (k ≡ n) ⊎ (n + 1 ≤ k)
at_or_after n k h = ground arith

IsFirst-skip :
    (cal : Calendar) (s : Schedule) (limit n : ℕ) (r : Option ℕ)
    → fires cal s n ≡ false
    → IsFirst cal s limit (n + 1) r
    → IsFirst cal s limit n r
IsFirst-skip cal s limit n none f h =
    λ k le lt. elim (at_or_after n k le) [ inl e ↦ rw e f | inr later ↦ h k later lt ]
IsFirst-skip cal s limit n (some m) f (le, lt, hit, earlier) = (
  omega arith,
  lt,
  hit,
  λ k from before. elim (at_or_after n k from) [
    | inl e ↦ rw e f
    | inr later ↦ earlier k later before
  ],
)

scan_minutes-IsFirst :
    (cal : Calendar) (s : Schedule) (limit fuel n : ℕ)
    → limit ≤ (n + fuel) * minute
    → IsFirst cal s limit n (scan_minutes cal s limit fuel n)
unfolding scan_minutes
scan_minutes-IsFirst cal s limit zero n h = λ k le lt. absurd (omega arith)
scan_minutes-IsFirst cal s limit (suc fuel) n h = elim (Bool-cases (ltb (n * minute) limit)) [
  | inr over ↦ rw over (λ k le lt. absurd (ground arith))
  | inl before ↦ rw before (elim (Bool-cases (fires cal s n)) [
    | inl hit ↦ rw hit (omega arith, ltb→lt _ _ before, hit, λ k from until. absurd (omega arith))
    | inr miss ↦ rw miss (
        IsFirst-skip cal s limit n (scan_minutes cal s limit fuel (n + 1)) miss
          (scan_minutes-IsFirst cal s limit fuel (n + 1) (omega arith)))
  ])
]

-- The answer for the time `after`: a minute after it, within 366 days, that fires, with none before
-- that does; or none if no minute after it within 366 days fires.
abbrev pub IsNext : Calendar → Schedule → ℕ → Option ℕ → Type 0
IsNext cal s after none =
    (k : ℕ) → after < k * minute → k * minute < after + horizon * minute → fires cal s k ≡ false
IsNext cal s after (some m) =
    (after < m * minute)
    × (m * minute < after + horizon * minute)
    × (fires cal s m ≡ true)
    × ((k : ℕ) → after < k * minute → k < m → fires cal s k ≡ false)

IsNext-of_IsFirst :
    (cal : Calendar) (s : Schedule) (after : ℕ) (r : Option ℕ)
    → IsFirst cal s (after + horizon * minute) (after / minute + 1) r
    → IsNext cal s after r
IsNext-of_IsFirst cal s after none h = λ k later soon. h k (omega arith) soon
IsNext-of_IsFirst cal s after (some m) (from, soon, hit, first) =
    (omega arith, soon, hit, λ k later before. first k (omega arith) before)

-- In any calendar, the search for the next run of any schedule answers with the first minute that
-- starts after the given time, lies within 366 days of it and fires, and fails only if there is
-- none: its fuel is enough.
pub next_cron_time-IsNext :
    (cal : Calendar) (s : Schedule) (after : ℕ) → IsNext cal s after (next_cron_time cal s after)
unfolding next_cron_time
next_cron_time-IsNext cal s after = IsNext-of_IsFirst cal s after _ (
    scan_minutes-IsFirst cal s (after + horizon * minute) (horizon + 1) (after / minute + 1)
      (omega arith))
