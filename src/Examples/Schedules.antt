-- ===== src/Examples/Schedules.antt =====
-- internal/hub/cron.go: schedules as texts.
use whatsupp.Base.{◌≡◌, refl, [], ◌∷◌, some, arith}
use whatsupp.Cron.{Schedule}
use whatsupp.Cron.Text.{
  is_space, split, cut, trim_left, trim_right, keep_code, trim_space, digits, number, positive,
  negative, atoi,
}
use whatsupp.Cron.Fields.{
  no_values, add_value, ok, parse_value, parse_part, parse_parts, parse_cron_field, parse_schedule,
}
use whatsupp.Cron.Fields.RoundTrip.{
  Lists, IsSchedule, Holds, all_of, print_schedule, parse_schedule-print,
}

-- 0,30 3 1 1,7 0
abbrev lists : Lists
lists = record {
  minutes = (0, 30 ∷ []);
  hours = (3, []);
  days = (1, []);
  months = (1, 7 ∷ []);
  weekdays = (0, []);
}

lists-IsSchedule : IsSchedule lists
lists-IsSchedule = record {
  minutes = ((omega arith, omega arith), ((omega arith, omega arith), tt));
  hours = ((omega arith, omega arith), tt);
  days = ((omega arith, omega arith), tt);
  months = ((omega arith, omega arith), ((omega arith, omega arith), tt));
  weekdays = ((omega arith, omega arith), tt);
}

parse_schedule-print_example :
    (s : Schedule) × (parse_schedule (print_schedule lists) ≡ ok s)
    × Holds s.minute_set (all_of lists.minutes)
    × Holds s.hour_set (all_of lists.hours)
    × Holds s.dom_set (all_of lists.days)
    × Holds s.month_set (all_of lists.months)
    × Holds s.dow_set (all_of lists.weekdays)
parse_schedule-print_example = parse_schedule-print lists lists-IsSchedule

-- A text with a sign, spaces and a leading zero.
reads_signs : atoi (trim_space (32 ∷ 43 ∷ 48 ∷ 55 ∷ 9 ∷ [])) ≡ some 7
unfolding atoi trim_space trim_left trim_right keep_code is_space number digits positive
reads_signs = refl

reads_minus : atoi (45 ∷ 49 ∷ []) ≡ some 18_446_744_073_709_551_615
unfolding atoi number digits negative
reads_minus = refl

-- The start 0 is below the least day of a month.

-- The field "5".
five : parse_cron_field (53 ∷ []) 0 6 ≡ ok (add_value 5 no_values)
unfolding parse_cron_field split parse_parts trim_space trim_left trim_right keep_code is_space
    parse_part cut parse_value atoi number digits positive
five = refl
