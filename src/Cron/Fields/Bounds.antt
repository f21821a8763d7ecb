-- ===== src/Cron/Fields/Bounds.antt =====
-- internal/hub/cron.go: no number in a parsed field is above the field's maximum.
use whatsupp.Base.{
  ℕ, zero, suc, ◌+◌, ◌%◌, ◌<◌, ◌≤◌, ◌≡◌, true, ◌||◌, List, [], ◌∷◌, arith, ltb, leb, Bool-cases,
  Option-cases, inl, inr,
}
use whatsupp.Cron.Text.{Codes, split, cut, trim_space, atoi, two_63, two_64}
use whatsupp.Cron.Fields.{
  Values, no_values, add_value, at_most, add_range, rounds, Parsed, ok, err, is_star, valid_step,
  start_of, parse_step, parse_value, parse_part, parse_parts, parse_cron_field, and_then,
}

Bounded : ℕ → Values → Type 0
Bounded max values = (n : ℕ) → values n ≡ true → at_most n max ≡ true

ParsedBounded : ℕ → Parsed Values → Type 0
ParsedBounded max (ok values) = Bounded max values
ParsedBounded max (err e) = Unit

add_value-Bounded :
    (max v : ℕ) (values : Values)
    → at_most v max ≡ true
    → Bounded max values
    → Bounded max (add_value v values)
unfolding Bounded add_value at_most
add_value-Bounded max v values h b n e = ground (arith, h, b n, e)

add_range-Bounded :
    (fuel i step max : ℕ) (values : Values)
    → Bounded max values
    → Bounded max (add_range fuel i step max values)
unfolding add_range
add_range-Bounded zero i step max values b = b
add_range-Bounded (suc fuel) i step max values b = elim (Bool-cases (at_most i max)) [
  | inl more ↦
      rw (more, add_range)
        (add_range-Bounded fuel ((i + step) % two_64) step max (add_value i values)
          (add_value-Bounded max i values more b))
  | inr over ↦ rw (over, add_range) b
]

parse_step-Bounded :
    (min max : ℕ) (part before after : Codes) (values : Values)
    → Bounded max values
    → ParsedBounded max (parse_step min max part before after values)
unfolding parse_step ParsedBounded
parse_step-Bounded min max part before after values b = elim (Option-cases (valid_step after)) [
  | inl bad ↦ rw (bad, parse_step) tt
  | inr (step, e) ↦ elim (Option-cases (start_of min before)) [
    | inl bad ↦ rw (e, bad, parse_step) tt
    | inr (start, e') ↦ rw (e, e', parse_step) (add_range-Bounded rounds start step max values b)
  ]
]

parse_value-Bounded :
    (min max : ℕ) (part : Codes) (values : Values)
    → Bounded max values
    → ParsedBounded max (parse_value min max part values)
unfolding parse_value ParsedBounded
parse_value-Bounded min max part values b = elim (Option-cases (atoi part)) [
  | inl bad ↦ rw (bad, parse_value) tt
  | inr (v, e) ↦ elim (Bool-cases (leb two_63 v || ltb v min || ltb max v)) [
    | inl out ↦ rw (e, out, parse_value) tt
    | inr within ↦
        rw (e, within, parse_value)
          (add_value-Bounded max v values (unfold at_most in ground (arith, within)) b)
  ]
]

parse_part-Bounded :
    (min max : ℕ) (part : Codes) (values : Values)
    → Bounded max values
    → ParsedBounded max (parse_part min max part values)
unfolding parse_part
parse_part-Bounded min max part values b = elim (Option-cases (cut 47 part)) [
  | inr ((before, after), e) ↦
      rw (e, parse_part) (parse_step-Bounded min max part before after values b)
  | inl e ↦ elim (Bool-cases (is_star part)) [
    | inl star ↦
        rw (e, star, parse_part)
          (unfold ParsedBounded in add_range-Bounded rounds min 1 max values b)
    | inr plain ↦ rw (e, plain, parse_part) (parse_value-Bounded min max part values b)
  ]
]

and_then-Bounded :
    (max : ℕ) (p : Parsed Values) (f : Values → Parsed Values)
    → ParsedBounded max p
    → ((values : Values) → Bounded max values → ParsedBounded max (f values))
    → ParsedBounded max (and_then p f)
unfolding ParsedBounded
and_then-Bounded max (ok values) f b h = h values b
and_then-Bounded max (err e) f b h = tt

parse_parts-Bounded :
    (min max : ℕ) (parts : List Codes) (values : Values)
    → Bounded max values
    → ParsedBounded max (parse_parts min max parts values)
unfolding parse_parts
parse_parts-Bounded min max [] values b = unfold ParsedBounded in b
parse_parts-Bounded min max (part ∷ parts) values b =
    and_then-Bounded max (parse_part min max (trim_space part) values) (parse_parts min max parts)
      (parse_part-Bounded min max (trim_space part) values b) (parse_parts-Bounded min max parts)

-- Every number of a field that parses, if it is not negative, is at most the field's maximum: a step
-- does not lead past it, not even one that overflows.
parse_cron_field-bounded :
    (field : Codes) (min max : ℕ) (values : Values) (n : ℕ)
    → parse_cron_field field min max ≡ ok values
    → values n ≡ true
    → n < two_63
    → n ≤ max
unfolding parse_cron_field
parse_cron_field-bounded field min max values n e on positive =
    let bound : ParsedBounded max (parse_cron_field field min max) =
      parse_parts-Bounded min max (split 44 field) no_values
        (unfold Bounded in λ j off. absurd (ground (arith, off))) in
    let holds : ParsedBounded max (ok values) = rw e at bound in
    unfold ParsedBounded Bounded at_most in ground (arith, holds n on, positive)
