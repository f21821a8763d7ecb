-- ===== src/Examples/Logins.antt =====
-- internal/api/auth.go: six attempts of one address in a minute, and ten failures.
use whatsupp.Base.{◌≤◌, ◌≡◌, ◌≢◌, eq_iff, String, false, List, [], ◌∷◌, arith, insert, empty_map}
use whatsupp.Login.{LoginRateLimiter, rate_limit_window, allow, record_failure}
use whatsupp.Login.Window.{
  Event, attempt, fails, succeeds, cleans, count_recent, passed_of, passed_in_a_minute,
}
use whatsupp.Login.Lockout.{run, locked_out}

-- Newest first.
abbrev history : List Event
history =
    attempt "a" 60
    ∷ attempt "a" 50
    ∷ attempt "b" 45
    ∷ attempt "a" 40
    ∷ fails "a" 35
    ∷ attempt "a" 30
    ∷ attempt "a" 20
    ∷ attempt "a" 10
    ∷ []

passed_in_a_minute_example : count_recent 70 rate_limit_window (passed_of "a" history) ≤ 5
passed_in_a_minute_example = passed_in_a_minute "a" 70 history (ground arith)

abbrev suspicious : LoginRateLimiter
suspicious = insert empty_map "a" (record { attempts = 90 ∷ []; failures = 9; locked_until = 0 })

abbrev later : List Event
later = attempt "a" 200 ∷ succeeds "b" ∷ cleans 300 ∷ fails "a" 400 ∷ []

other : ◌≢◌ {A = String} "b" "a"
other = ground (arith, eq_iff "b" "a")

locked_out_example : (allow (run (record_failure suspicious "a" 100) later) "a" 500).1 ≡ false
locked_out_example =
    locked_out suspicious "a" 100 500 later (ground arith)
      (
        omega arith,
        omega arith,
        (other, (omega arith, omega arith, (omega arith, omega arith, tt))),
      )
      (omega arith)
