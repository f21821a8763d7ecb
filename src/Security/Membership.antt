-- ===== src/Security/Membership.antt =====
-- internal/checks/security.go: the result of each function as a set of ports, and its order.
use whatsupp.Base.{
  ℕ, ◌≡◌, refl, ◌∙◌, Bool, not, ◌&&◌, ◌||◌, List, [], ◌∷◌, arith, leb, ltb, ◌==◌, ==_iff, length,
  take, keep_if, Bool-cases, inl, inr,
}
use whatsupp.Security.{
  contains_int, in_all, in_none, filter_by_hysteresis, compare_baseline, add_port, add_ports,
  delete_ports,
}
use whatsupp.Security.Sort.{sort, count, count-sort, Ascending, Ascending-sort}

pub contains-count : (xs : List ℕ) (p : ℕ) → contains_int xs p ≡ ltb 0 (count p xs)
unfolding contains_int
contains-count [] p = refl
contains-count (x ∷ xs) p = ground (arith, contains-count xs p)

pub contains-sort : (xs : List ℕ) (p : ℕ) → contains_int (sort xs) p ≡ contains_int xs p
contains-sort xs p =
    ground (arith, contains-count xs p, contains-count (sort xs) p, count-sort p xs)

pub contains-keep_if :
    (f : ℕ → Bool) (xs : List ℕ) (p : ℕ)
    → contains_int (keep_if f xs) p ≡ (contains_int xs p && f p)
unfolding contains_int
contains-keep_if f [] p = refl
contains-keep_if f (x ∷ xs) p = elim (Bool-cases (x == p)) [
  | inl e ↦ rw (← (==_iff x p).0 e) (ground (arith, contains-keep_if f xs x))
  | inr e ↦ ground (arith, contains-keep_if f xs p)
]

contains-add_port :
    (set : List ℕ) (x p : ℕ) → contains_int (add_port set x) p ≡ (contains_int set p || (x == p))
unfolding add_port
contains-add_port set x p = elim (Bool-cases (x == p)) [
  | inl e ↦ rw (← (==_iff x p).0 e) (unfold contains_int in ground arith)
  | inr e ↦ unfold contains_int in ground arith
]

pub contains-add_ports :
    (set ps : List ℕ) (p : ℕ)
    → contains_int (add_ports set ps) p ≡ (contains_int set p || contains_int ps p)
unfolding add_ports
contains-add_ports set [] p = unfold contains_int in ground arith
contains-add_ports set (x ∷ ps) p =
    contains-add_ports (add_port set x) ps p
    ∙ unfold contains_int in ground (arith, contains-add_port set x p)

pub contains-delete_ports :
    (set ps : List ℕ) (p : ℕ)
    → contains_int (delete_ports set ps) p ≡ (contains_int set p && not (contains_int ps p))
unfolding delete_ports
contains-delete_ports set [] p = unfold contains_int in ground arith
contains-delete_ports set (x ∷ ps) p =
    contains-delete_ports (keep_if (λ q. not (q == x)) set) ps p
    ∙ unfold contains_int in ground (arith, contains-keep_if (λ q. not (q == x)) set p)

-- `CompareBaseline` returns, in ascending order, the ports of the scan that the baseline lacks and
-- those of the baseline that the scan lacks, and no others.
pub compare_baseline-contains :
    (baseline current : List ℕ) (p : ℕ)
    → let (new_ports, gone_ports) = compare_baseline baseline current in
      (contains_int new_ports p ≡ (contains_int current p && not (contains_int baseline p)))
      × (contains_int gone_ports p ≡ (contains_int baseline p && not (contains_int current p)))
      × Ascending 0 new_ports
      × Ascending 0 gone_ports
unfolding compare_baseline
compare_baseline-contains baseline current p =
    let missing = keep_if (λ q. not (contains_int baseline q)) current in
    let lost = keep_if (λ q. not (contains_int current q)) baseline in
    (
      contains-sort missing p ∙ contains-keep_if _ current p,
      contains-sort lost p ∙ contains-keep_if _ baseline p,
      Ascending-sort missing,
      Ascending-sort lost,
    )

-- With a hysteresis above 1 and that many scans at hand, `FilterByHysteresis` keeps exactly the new
-- ports that are in each of the newest scans and the gone ports that are in none of them; with fewer
-- scans it keeps nothing, and with a hysteresis of at most 1 everything.
pub filter_by_hysteresis-contains :
    (new_ports gone_ports : List ℕ) (scans : List (List ℕ)) (hysteresis p : ℕ)
    → let (stable, gone) = filter_by_hysteresis new_ports gone_ports scans hysteresis in
      let enough = leb hysteresis (length scans) in
      let window = take hysteresis scans in
      (contains_int stable p
        ≡ (contains_int new_ports p && (leb hysteresis 1 || (enough && in_all window p))))
      × (contains_int gone p
          ≡ (contains_int gone_ports p && (leb hysteresis 1 || (enough && in_none window p))))
unfolding filter_by_hysteresis contains_int
filter_by_hysteresis-contains new_ports gone_ports scans hysteresis p =
    let window = take hysteresis scans in
    ground (
      arith,
      contains-keep_if (in_all window) new_ports p,
      contains-keep_if (in_none window) gone_ports p,
    )
