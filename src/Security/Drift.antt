-- ===== src/Security/Drift.antt =====
-- internal/checks/security.go: folding alerted changes into the baseline.
use whatsupp.Base.{ℕ, ◌≤◌, ◌<◌, ◌≡◌, refl, sym, ◌∙◌, true, not, ◌&&◌, ◌||◌, List, [], ◌∷◌, arith}
use whatsupp.Security.{
  contains_int, compare_baseline, add_ports, delete_ports, apply_baseline_drift,
}
use whatsupp.Security.Sort.{sort, count, count-sort, Ascending, Ascending-sort}
use whatsupp.Security.Membership.{
  contains-count, contains-sort, contains-add_ports, contains-delete_ports,
  compare_baseline-contains,
}

-- The loop over a map meets each key as often as the set holds it.
abbrev pub Reorders : (List ℕ → List ℕ) → Type 0
Reorders range = (a : ℕ) (set : List ℕ) → count a (range set) ≡ count a set

contains-range :
    (range : List ℕ → List ℕ) (set : List ℕ) (p : ℕ)
    → Reorders range
    → contains_int (range set) p ≡ contains_int set p
contains-range range set p r =
    ground (arith, contains-count (range set) p, contains-count set p, r p set)

-- Whatever the order of the loop over the map, the new baseline holds exactly the ports of the old
-- one and the alerted new ones, without the alerted gone ones.
pub apply_baseline_drift-contains :
    (range : List ℕ → List ℕ) (baseline added gone : List ℕ) (p : ℕ)
    → Reorders range
    → contains_int (apply_baseline_drift range baseline added gone) p
      ≡ ((contains_int baseline p || contains_int added p) && not (contains_int gone p))
unfolding apply_baseline_drift
apply_baseline_drift-contains range baseline added gone p r =
    let base = add_ports [] baseline in
    let all = add_ports base added in
    let set = delete_ports all gone in
    contains-sort (range set) p
    ∙ contains-range range set p r
    ∙ unfold contains_int in
      ground (
        arith,
        contains-delete_ports all gone p,
        contains-add_ports base added p,
        contains-add_ports [] baseline p,
      )

count_below : (lo a : ℕ) (xs : List ℕ) → Ascending lo xs → a < lo → count a xs ≡ 0
count_below lo a [] s h = refl
count_below lo a (x ∷ xs) s h = ground (arith, count_below x a xs s.1)

heads-le :
    (lo x y : ℕ) (xs ys : List ℕ)
    → Ascending lo (y ∷ ys)
    → count x (x ∷ xs) ≡ count x (y ∷ ys)
    → y ≤ x
heads-le lo x y xs ys s e = ground (arith, count_below y x ys s.1)

Ascending-unique :
    (lo : ℕ) (xs ys : List ℕ)
    → Ascending lo xs
    → Ascending lo ys
    → ((a : ℕ) → count a xs ≡ count a ys)
    → xs ≡ ys
Ascending-unique lo [] [] s t e = refl
Ascending-unique lo [] (y ∷ ys) s t e = ground (arith, e y)
Ascending-unique lo (x ∷ xs) [] s t e = ground (arith, e x)
Ascending-unique lo (x ∷ xs) (y ∷ ys) s t e =
    let x-le : x ≤ y = heads-le lo y x ys xs s (sym (e y)) in
    let y-le : y ≤ x = heads-le lo x y xs ys t (e x) in
    let same : x ≡ y = omega arith in
    let rest = Ascending-unique x xs ys s.1 (rw same t.1) (λ a. ground (arith, e a)) in cc

-- The order in which Go's loop over the map meets the ports does not change the new baseline.
pub apply_baseline_drift_unique :
    (range range' : List ℕ → List ℕ) (baseline added gone : List ℕ)
    → Reorders range
    → Reorders range'
    → apply_baseline_drift range baseline added gone
      ≡ apply_baseline_drift range' baseline added gone
unfolding apply_baseline_drift
apply_baseline_drift_unique range range' baseline added gone r r' =
    let set = delete_ports (add_ports (add_ports [] baseline) added) gone in
    Ascending-unique 0 (sort (range set)) (sort (range' set)) (Ascending-sort (range set))
      (Ascending-sort (range' set))
      λ a. count-sort a (range set) ∙ r a set ∙ sym (r' a set) ∙ sym (count-sort a (range' set))

-- Every port of the one list is in the other.
abbrev pub Among : List ℕ → List ℕ → Type 0
Among xs ys = (p : ℕ) → contains_int xs p ≡ true → contains_int ys p ≡ true

-- A change alerts once: after alerted ports, taken from the drift of a scan, are folded into the
-- baseline, the same scan drifts from it by exactly the ports that were not alerted.
pub alerts_once :
    (range : List ℕ → List ℕ) (baseline current added gone : List ℕ) (p : ℕ)
    → Reorders range
    → Among added (compare_baseline baseline current).0
    → Among gone (compare_baseline baseline current).1
    → let before = compare_baseline baseline current in
      let after = compare_baseline (apply_baseline_drift range baseline added gone) current in
      (contains_int after.0 p ≡ (contains_int before.0 p && not (contains_int added p)))
      × (contains_int after.1 p ≡ (contains_int before.1 p && not (contains_int gone p)))
alerts_once range baseline current added gone p r a g =
    let updated = apply_baseline_drift range baseline added gone in
    let was = compare_baseline-contains baseline current p in
    let is_now = compare_baseline-contains updated current p in
    let holds = apply_baseline_drift-contains range baseline added gone p r in
    ground (arith, was.0, was.1, is_now.0, is_now.1, holds, a p, g p)
