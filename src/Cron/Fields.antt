-- ===== src/Cron/Fields.antt =====
-- internal/hub/cron.go: parseCronField, and nextCronTime on the text of a schedule. A Go map from int
-- to bool is a test of the int's two's complement; the bounds of a field are below 100.
pub mod Digits
pub mod Words
pub mod RoundTrip
pub mod Steps
pub mod Bounds
use whatsupp.Base.{
  ℕ, zero, suc, ◌+◌, ◌%◌, Bool, true, false, not, ◌&&◌, ◌||◌, List, [], ◌∷◌, Option, none, some,
  ltb, leb, ◌==◌, if◌then◌else◌, length,
}
use whatsupp.Cron.{Calendar, Schedule, next_cron_time}
use whatsupp.Cron.Text.{Codes, split, cut, fields, trim_space, atoi, two_63, two_64}

abbrev pub Values : Type 0
Values = ℕ → Bool

abbrev pub no_values : Values
no_values n = false

unfoldable pub add_value : ℕ → Values → Values
add_value v values n = v == n || values n

pub data CronError : Type 0 where
  invalid_step invalid_start invalid_value : Codes → CronError
  out_of_range : ℕ → CronError
  wrong_fields : ℕ → CronError
  no_match : CronError

pub data Parsed {ℓ} (A : Type ℓ) : Type ℓ where
  ok : A → Parsed A
  err : CronError → Parsed A

abbrev pub and_then {ℓ κ} : {A : Type ℓ} {B : Type κ} → Parsed A → (A → Parsed B) → Parsed B
and_then (ok a) f = f a
and_then (err e) f = err e

-- i <= max, of which only i can be negative
unfoldable pub at_most : ℕ → ℕ → Bool
at_most i max = leb two_63 i || leb i max

-- The loop from `i` by `step`; the addition wraps around.
unfoldable pub add_range : ℕ → ℕ → ℕ → ℕ → Values → Values
unfolding add_value at_most
add_range zero i step max values = values
add_range (suc fuel) i step max values = elim (at_most i max) [
  | true ↦ add_range fuel ((i + step) % two_64) step max (add_value i values)
  | false ↦ values
]

-- More rounds than there are ints.
abbrev pub rounds : ℕ
rounds = two_64

-- A positive step.
unfoldable pub valid_step : Codes → Option ℕ
unfolding atoi
valid_step text = elim (atoi text) [
  | none ↦ none
  | some step ↦ if step == 0 || leb two_63 step then none else some step
]

-- Is the text "*"?
abbrev pub is_star : Codes → Bool
is_star [] = false
is_star (c ∷ []) = c == 42
is_star (c ∷ d ∷ cs) = false

unfoldable pub start_of : ℕ → Codes → Option ℕ
unfolding atoi
start_of min text = if is_star text then some min else atoi text

unfoldable pub parse_step : ℕ → ℕ → Codes → Codes → Codes → Values → Parsed Values
unfolding valid_step start_of
parse_step min max part before after values = elim (valid_step after) [
  | none ↦ err (invalid_step part)
  | some step ↦ elim (start_of min before) [
    | none ↦ err (invalid_start part)
    | some start ↦ ok (add_range rounds start step max values)
  ]
]

unfoldable pub parse_value : ℕ → ℕ → Codes → Values → Parsed Values
unfolding atoi add_value
parse_value min max part values = elim (atoi part) [
  | none ↦ err (invalid_value part)
  | some v ↦
      if leb two_63 v || ltb v min || ltb max v
      then err (out_of_range v)
      else ok (add_value v values)
]

unfoldable pub parse_part : ℕ → ℕ → Codes → Values → Parsed Values
unfolding cut parse_step parse_value
parse_part min max part values = elim (cut 47 part) [
  | some (before, after) ↦ parse_step min max part before after values
  | none ↦
      if is_star part
      then ok (add_range rounds min 1 max values)
      else parse_value min max part values
]

unfoldable pub parse_parts : ℕ → ℕ → List Codes → Values → Parsed Values
unfolding parse_part trim_space
parse_parts min max [] values = ok values
parse_parts min max (part ∷ parts) values =
    and_then (parse_part min max (trim_space part) values) (parse_parts min max parts)

unfoldable pub parse_cron_field : Codes → ℕ → ℕ → Parsed Values
unfolding parse_parts split
parse_cron_field field min max = parse_parts min max (split 44 field) no_values

unfoldable pub parse_fields : List Codes → Parsed Schedule
unfolding parse_cron_field
parse_fields (f0 ∷ f1 ∷ f2 ∷ f3 ∷ f4 ∷ []) = and_then (parse_cron_field f0 0 59) λ minute_set.
    and_then (parse_cron_field f1 0 23) λ hour_set. and_then (parse_cron_field f2 1 31) λ dom_set.
      and_then (parse_cron_field f3 1 12) λ month_set. and_then (parse_cron_field f4 0 6) λ dow_set.
        ok (record {
          minute_set = minute_set;
          hour_set = hour_set;
          dom_set = dom_set;
          month_set = month_set;
          dow_set = dow_set;
        })
parse_fields fs = err (wrong_fields (length fs))

unfoldable pub parse_schedule : Codes → Parsed Schedule
unfolding parse_fields fields
parse_schedule spec = parse_fields (fields spec)

-- The number of the minute at which the schedule fires next.
unfoldable pub next_run : Calendar → Codes → ℕ → Parsed ℕ
unfolding parse_schedule next_cron_time
next_run cal spec after =
    and_then (parse_schedule spec)
      λ s. elim (next_cron_time cal s after) [ none ↦ err no_match | some n ↦ ok n ]
