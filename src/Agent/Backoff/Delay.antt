-- ===== src/Agent/Backoff/Delay.antt =====
-- internal/agent/backoff.go: `delay` in closed form.
use native.Mathlib.Nat.{pow-suc}
use whatsupp.Base.{
  ℕ, zero, suc, ◌-◌, ◌*◌, ◌^◌, ◌≤◌, ◌≡◌, refl, ap, ◌∙◌, arith, leb, ◌==◌, if◌then◌else◌, min,
  Bool-cases, inl, inr,
}
use whatsupp.Agent.Backoff.{Backoff, doublings, delay}

pow-pos : (n : ℕ) → 1 ≤ 2 ^ n
pow-pos zero = omega arith
pow-pos (suc n) = omega (arith, pow-suc 2 n, pow-pos n)

double_first : (d n : ℕ) → d * 2 ^ suc n ≡ d * 2 * 2 ^ n
double_first d n = omega (arith, ap (λ (t : ℕ). d * t) (pow-suc 2 n))

mul-pow-ge : (d n : ℕ) → d ≤ d * 2 ^ n
mul-pow-ge d n = let p : 1 ≤ 2 ^ n = pow-pos n in grind arith

doublings-eq : (max n d : ℕ) → doublings max (suc n) d ≡ min (d * 2 ^ suc n) max
unfolding doublings
doublings-eq max zero d = ground arith
doublings-eq max (suc n) d = elim (Bool-cases (leb max (d * 2))) [
  | inl over ↦ rw over (ground (arith, double_first d (suc n), mul-pow-ge (d * 2) (suc n)))
  | inr under ↦ rw (under, double_first d (suc n)) (doublings-eq max n (d * 2))
]

-- The delay after n + 1 failures in a row: the base after the first one, whatever the cap, and
-- min (base * 2 ^ n) max after any later one.
pub delay-eq :
    (b : Backoff) (n : ℕ)
    → delay b (suc n) ≡ (if n == 0 then b.base else min (b.base * 2 ^ n) b.max)
unfolding delay
delay-eq b zero = unfold doublings in refl
delay-eq b (suc n) =
    let e : suc (suc n) - 1 ≡ suc n = omega arith in
    rw e (doublings-eq b.max n b.base ∙ ground arith)
