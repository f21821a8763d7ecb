-- ===== src/Cron/Fields/RoundTrip.antt =====
-- internal/hub/cron.go: a schedule printed as lists of numbers is read back.
use whatsupp.Base.{ℕ, ◌≤◌, ◌<◌, ◌≡◌, refl, ◌||◌, List, [], ◌∷◌, ◌++◌, arith, All, All-append}
use whatsupp.Cron.{Schedule}
use whatsupp.Cron.Text.{Codes, is_space, split, fields, trim_space}
use whatsupp.Cron.Fields.{
  Values, no_values, add_value, ok, parse_value, parse_part, parse_parts, parse_cron_field,
  parse_fields, parse_schedule,
}
use whatsupp.Cron.Fields.Digits.{
  decimal, print_field, is_among, decimal-IsDigit, decimal-IsPlain, split-plain, split-last,
  trim_space-plain, cut-digits, atoi-decimal, is_star-decimal,
}
use whatsupp.Cron.Fields.Words.{
  NotSpace, decimal-NotSpace, IsCons, decimal-IsCons, IsCons-append, fields-cut, fields-end,
}

-- The numbers lie between the bounds of a field.
abbrev pub InBounds : ℕ → ℕ → List ℕ → Type 0
InBounds min max vs = All (λ v. (min ≤ v) × (v ≤ max)) vs

abbrev add_all : List ℕ → Values → Values
add_all [] values = values
add_all (v ∷ vs) values = add_all vs (add_value v values)

add_all_lem :
    (vs : List ℕ) (values : Values) (n : ℕ) → add_all vs values n ≡ (is_among n vs || values n)
unfolding add_value
add_all_lem [] values n = refl
add_all_lem (v ∷ vs) values n = ground (arith, add_all_lem vs (add_value v values) n)

module _ (min max : ℕ) (small : max < 100) where
  parse_part-decimal :
      (v : ℕ) (values : Values)
      → min ≤ v
      → v ≤ max
      → parse_part min max (trim_space (decimal v)) values ≡ ok (add_value v values)
  unfolding parse_part parse_value
  parse_part-decimal v values lo hi =
      let digit = decimal-IsDigit v (omega arith) in
      rw (trim_space-plain (decimal v) (decimal-IsPlain v (omega arith))) (
        ground (
          arith,
          cut-digits (decimal v) digit,
          is_star-decimal v,
          atoi-decimal v (omega arith),
          lo,
          hi,
        ))

  parse_parts-print :
      (v : ℕ) (vs : List ℕ) (values : Values)
      → InBounds min max (v ∷ vs)
      → parse_parts min max (split 44 (print_field v vs)) values ≡ ok (add_all (v ∷ vs) values)
  unfolding parse_parts print_field
  parse_parts-print v [] values ((lo, hi), b) =
      rw
        (
          split-last (decimal v) (decimal-IsPlain v (omega arith)),
          parse_part-decimal v values lo hi,
        )
        refl
  parse_parts-print v (w ∷ vs) values ((lo, hi), b) =
      rw
        (
          split-plain (decimal v) (print_field w vs) (decimal-IsPlain v (omega arith)),
          parse_part-decimal v values lo hi,
        )
        (parse_parts-print w vs (add_value v values) b)

  parse_cron_field-print :
      (v : ℕ) (vs : List ℕ)
      → InBounds min max (v ∷ vs)
      → parse_cron_field (print_field v vs) min max ≡ ok (add_all (v ∷ vs) no_values)
  unfolding parse_cron_field
  parse_cron_field-print v vs b = parse_parts-print v vs no_values b

print_field-NotSpace :
    (v : ℕ) (vs : List ℕ) → All (λ v. v < 100) (v ∷ vs) → All NotSpace (print_field v vs)
unfolding print_field
print_field-NotSpace v [] (h, hs) = decimal-NotSpace v h
print_field-NotSpace v (w ∷ vs) (h, hs) =
    All-append NotSpace (decimal v) (44 ∷ print_field w vs) (decimal-NotSpace v h)
      (unfold NotSpace is_space in ground arith, print_field-NotSpace w vs hs)

-- The five fields of a schedule, each a list of numbers that is not empty.
pub record Lists : Type 0 where
  pub minutes : ℕ × List ℕ
  pub hours : ℕ × List ℕ
  pub days : ℕ × List ℕ
  pub months : ℕ × List ℕ
  pub weekdays : ℕ × List ℕ

abbrev pub all_of : ℕ × List ℕ → List ℕ
all_of (v, vs) = v ∷ vs

abbrev printed : ℕ × List ℕ → Codes
printed (v, vs) = print_field v vs

-- The fields with spaces between them.
unfoldable pub print_schedule : Lists → Codes
unfolding print_field
print_schedule l =
    printed l.minutes
    ++ 32
      ∷ (printed l.hours
          ++ 32 ∷ (printed l.days ++ 32 ∷ (printed l.months ++ 32 ∷ printed l.weekdays)))

-- Each list lies between the bounds of its field.
pub record IsSchedule (l : Lists) : Type 0 where
  pub minutes : InBounds 0 59 (all_of l.minutes)
  pub hours : InBounds 0 23 (all_of l.hours)
  pub days : InBounds 1 31 (all_of l.days)
  pub months : InBounds 1 12 (all_of l.months)
  pub weekdays : InBounds 0 6 (all_of l.weekdays)

-- A set of values is that of a list.
abbrev pub Holds : Values → List ℕ → Type 0
Holds values vs = (n : ℕ) → values n ≡ is_among n vs

below-100 : (min max : ℕ) (vs : List ℕ) → max < 100 → InBounds min max vs → All (λ v. v < 100) vs
below-100 min max [] h b = tt
below-100 min max (v ∷ vs) h (b, bs) = (omega (arith, b.1), below-100 min max vs h bs)

print_field-IsCons : (v : ℕ) (vs : List ℕ) → IsCons (print_field v vs)
unfolding print_field
print_field-IsCons v [] = decimal-IsCons v
print_field-IsCons v (w ∷ vs) = IsCons-append (decimal v) (44 ∷ print_field w vs) (decimal-IsCons v)

module _ (min max : ℕ) (small : max < 100) (l : ℕ × List ℕ) (b : InBounds min max (all_of l)) where
  fields-print : (cs : Codes) → fields (printed l ++ 32 ∷ cs) ≡ printed l ∷ fields cs
  fields-print cs =
      fields-cut (printed l) cs (print_field-IsCons l.0 l.1)
        (print_field-NotSpace l.0 l.1 (below-100 min max (all_of l) small b))

  fields-print_last : fields (printed l) ≡ printed l ∷ []
  fields-print_last =
      fields-end (printed l) (print_field-IsCons l.0 l.1)
        (print_field-NotSpace l.0 l.1 (below-100 min max (all_of l) small b))

held : (vs : List ℕ) → Holds (add_all vs no_values) vs
held vs n = ground (arith, add_all_lem vs no_values n)

-- Five lists of numbers that lie between the bounds of their fields, printed with commas and spaces
-- between them, are read back as the sets of those numbers.
pub parse_schedule-print :
    (l : Lists)
    → IsSchedule l
    → (s : Schedule) × (parse_schedule (print_schedule l) ≡ ok s)
      × Holds s.minute_set (all_of l.minutes)
      × Holds s.hour_set (all_of l.hours)
      × Holds s.dom_set (all_of l.days)
      × Holds s.month_set (all_of l.months)
      × Holds s.dow_set (all_of l.weekdays)
unfolding parse_schedule parse_fields print_schedule
parse_schedule-print l i =
    let s : Schedule = record {
      minute_set = add_all (all_of l.minutes) no_values;
      hour_set = add_all (all_of l.hours) no_values;
      dom_set = add_all (all_of l.days) no_values;
      month_set = add_all (all_of l.months) no_values;
      dow_set = add_all (all_of l.weekdays) no_values;
    } in
    let five : fields (print_schedule l)
        ≡ printed l.minutes
          ∷ printed l.hours
          ∷ printed l.days
          ∷ printed l.months
          ∷ printed l.weekdays
          ∷ [] =
      rw
        (
          fields-print 0 59 (omega arith) l.minutes i.minutes,
          fields-print 0 23 (omega arith) l.hours i.hours,
          fields-print 1 31 (omega arith) l.days i.days,
          fields-print 1 12 (omega arith) l.months i.months,
          fields-print_last 0 6 (omega arith) l.weekdays i.weekdays,
        )
        refl in
    (
      s,
      rw
          (
            five,
            parse_cron_field-print 0 59 (omega arith) l.minutes.0 l.minutes.1 i.minutes,
            parse_cron_field-print 0 23 (omega arith) l.hours.0 l.hours.1 i.hours,
            parse_cron_field-print 1 31 (omega arith) l.days.0 l.days.1 i.days,
            parse_cron_field-print 1 12 (omega arith) l.months.0 l.months.1 i.months,
            parse_cron_field-print 0 6 (omega arith) l.weekdays.0 l.weekdays.1 i.weekdays,
          )
          refl,
      held (all_of l.minutes),
      held (all_of l.hours),
      held (all_of l.days),
      held (all_of l.months),
      held (all_of l.weekdays),
    )
