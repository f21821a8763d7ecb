-- ===== src/Store/Failures.antt =====
-- internal/store/queries.go: GetLastNCheckResults and CountConsecutiveFailures.
use whatsupp.Base.{
  ℕ, zero, suc, ◌≤◌, ◌≡◌, refl, String, List, [], ◌∷◌, arith, ltb, str_eq, if◌then◌else◌, keep_if,
  take, min, All, Bool-cases, inl, inr,
}
use whatsupp.Store.{CheckRow, Db, statement, pure, ◌>>=◌}

-- ORDER BY timestamp DESC; of equal times the newer row first.
unfoldable pub insert_by_stamp : CheckRow → List CheckRow → List CheckRow
insert_by_stamp r [] = r ∷ []
insert_by_stamp r (q ∷ rows) =
    let rest = insert_by_stamp r rows in
    if ltb r.timestamp q.timestamp then q ∷ rest else r ∷ q ∷ rows

unfoldable pub newest_first : List CheckRow → List CheckRow
unfolding insert_by_stamp
newest_first [] = []
newest_first (r ∷ rows) = insert_by_stamp r (newest_first rows)

-- The rows of a monitor.
abbrev pub rows_of : String → List CheckRow → List CheckRow
rows_of monitor rows = keep_if (λ r. str_eq r.monitor monitor) rows

unfoldable pub get_last_n_check_results : String → ℕ → Db (List CheckRow)
unfolding statement newest_first
get_last_n_check_results monitor n =
    statement λ t. (take n (newest_first (rows_of monitor t.check_results)), t)

-- The loop that breaks at the first row that is not "down".
unfoldable pub leading_down : List CheckRow → ℕ
leading_down [] = 0
leading_down (r ∷ rows) =
    let rest = leading_down rows in if str_eq r.status "down" then suc rest else 0

unfoldable pub count_consecutive_failures : String → Db ℕ
unfolding get_last_n_check_results leading_down
count_consecutive_failures monitor =
    get_last_n_check_results monitor 100 >>= λ rows. pure (leading_down rows)

abbrev pub UpTo : ℕ → List CheckRow → Type 0
UpTo t rows = All (λ (r : CheckRow). r.timestamp ≤ t) rows

abbrev pub Descending : List CheckRow → Type 0
Descending [] = Unit
Descending (r ∷ rows) = UpTo r.timestamp rows × Descending rows

UpTo-rows_of :
    (t : ℕ) (monitor : String) (rows : List CheckRow) → UpTo t rows → UpTo t (rows_of monitor rows)
UpTo-rows_of t monitor [] h = tt
UpTo-rows_of t monitor (r ∷ rows) h = elim (Bool-cases (str_eq r.monitor monitor)) [
  | inl hit ↦ rw hit (h.0, UpTo-rows_of t monitor rows h.1)
  | inr miss ↦ rw miss (UpTo-rows_of t monitor rows h.1)
]

Descending-rows_of :
    (monitor : String) (rows : List CheckRow) → Descending rows → Descending (rows_of monitor rows)
Descending-rows_of monitor [] h = tt
Descending-rows_of monitor (r ∷ rows) h = elim (Bool-cases (str_eq r.monitor monitor)) [
  | inl hit ↦
      rw hit (UpTo-rows_of r.timestamp monitor rows h.0, Descending-rows_of monitor rows h.1)
  | inr miss ↦ rw miss (Descending-rows_of monitor rows h.1)
]

insert_by_stamp-UpTo :
    (r : CheckRow) (rows : List CheckRow)
    → UpTo r.timestamp rows
    → insert_by_stamp r rows ≡ r ∷ rows
unfolding insert_by_stamp
insert_by_stamp-UpTo r [] h = refl
insert_by_stamp-UpTo r (q ∷ rows) (le, h) = ground arith

newest_first-Descending : (rows : List CheckRow) → Descending rows → newest_first rows ≡ rows
unfolding newest_first
newest_first-Descending [] h = refl
newest_first-Descending (r ∷ rows) h =
    rw (newest_first-Descending rows h.1) (insert_by_stamp-UpTo r rows h.0)

leading_down-take :
    (n : ℕ) (rows : List CheckRow) → leading_down (take n rows) ≡ min n (leading_down rows)
unfolding leading_down
leading_down-take zero rows = omega arith
leading_down-take (suc n) [] = omega arith
leading_down-take (suc n) (r ∷ rows) = ground (arith, leading_down-take n rows)

-- Where the rows are stored in the order of their times, the count is the one over all of them, but
-- for the bound of 100.
pub count-Descending :
    (monitor : String) (rows : List CheckRow)
    → Descending rows
    → leading_down (take 100 (newest_first (rows_of monitor rows)))
      ≡ min 100 (leading_down (rows_of monitor rows))
count-Descending monitor rows h =
    rw (newest_first-Descending (rows_of monitor rows) (Descending-rows_of monitor rows h))
      (leading_down-take 100 (rows_of monitor rows))
