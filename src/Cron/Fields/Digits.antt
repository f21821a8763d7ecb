-- ===== src/Cron/Fields/Digits.antt =====
-- internal/hub/cron.go: numbers below 100 as decimal digits, and lists of them.
use whatsupp.Base.{
  ℕ, ◌+◌, ◌/◌, ◌%◌, ◌≤◌, ◌<◌, ◌≡◌, ◌≢◌, refl, Bool, false, ◌||◌, List, [], ◌∷◌, ◌++◌, none, some,
  ltb, ◌==◌, if◌then◌else◌, arith, All,
}
use whatsupp.Cron.Text.{
  Codes, is_space, split, cut, trim_left, trim_right, keep_code, trim_space, digits, number,
  positive, atoi,
}
use whatsupp.Cron.Fields.{is_star}

-- A number below 100 in decimal digits.
unfoldable pub decimal : ℕ → Codes
decimal n = if ltb n 10 then (48 + n) ∷ [] else (48 + n / 10) ∷ (48 + n % 10) ∷ []

-- A list of numbers with commas between them.
unfoldable pub print_field : ℕ → List ℕ → Codes
unfolding decimal
print_field v [] = decimal v
print_field v (w ∷ vs) = decimal v ++ 44 ∷ print_field w vs

abbrev pub is_among : ℕ → List ℕ → Bool
is_among n [] = false
is_among n (v ∷ vs) = v == n || is_among n vs

abbrev pub IsDigit : ℕ → Type 0
IsDigit c = (48 ≤ c) × (c ≤ 57)

pub decimal-IsDigit : (n : ℕ) → n < 100 → All IsDigit (decimal n)
unfolding decimal
decimal-IsDigit n h = ground arith

-- Digits, `*`, `/` and signs.
abbrev pub IsPlain : ℕ → Type 0
IsPlain c = (42 ≤ c) × (c ≤ 57) × (c ≢ 44)

pub decimal-IsPlain : (n : ℕ) → n < 100 → All IsPlain (decimal n)
unfolding decimal
decimal-IsPlain n h = ground arith

pub split-plain : (w cs : Codes) → All IsPlain w → split 44 (w ++ 44 ∷ cs) ≡ w ∷ split 44 cs
unfolding split
split-plain [] cs d = refl
split-plain (c ∷ w) cs (d, ds) = ground (arith, d, split-plain w cs ds)

pub split-last : (w : Codes) → All IsPlain w → split 44 w ≡ w ∷ []
unfolding split
split-last [] d = refl
split-last (c ∷ w) (d, ds) = ground (arith, d, split-last w ds)

pub plain-not-space : (c : ℕ) → IsPlain c → is_space c ≡ false
unfolding is_space
plain-not-space c d = ground (arith, d)

pub trim_left-plain : (w : Codes) → All IsPlain w → trim_left w ≡ w
unfolding trim_left
trim_left-plain [] d = refl
trim_left-plain (c ∷ w) (d, ds) = rw (plain-not-space c d) refl

pub trim_right-plain : (w : Codes) → All IsPlain w → trim_right w ≡ w
unfolding trim_right keep_code
trim_right-plain [] d = refl
trim_right-plain (c ∷ []) (d, ds) = rw (plain-not-space c d) refl
trim_right-plain (c ∷ e ∷ w) (d, ds) = rw (trim_right-plain (e ∷ w) ds) refl

pub trim_space-plain : (w : Codes) → All IsPlain w → trim_space w ≡ w
unfolding trim_space
trim_space-plain w d = rw (trim_left-plain w d) (trim_right-plain w d)

pub cut-digits : (w : Codes) → All IsDigit w → cut 47 w ≡ none
unfolding cut
cut-digits [] d = refl
cut-digits (c ∷ w) (d, ds) = ground (arith, d, cut-digits w ds)

pub atoi-decimal : (n : ℕ) → n < 100 → atoi (decimal n) ≡ some n
unfolding atoi decimal number digits positive
atoi-decimal n h = ground arith

pub is_star-decimal : (n : ℕ) → is_star (decimal n) ≡ false
unfolding decimal
is_star-decimal n = ground arith
