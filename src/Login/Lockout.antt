-- ===== src/Login/Lockout.antt =====
-- internal/api/auth.go: how long an address is locked out, and what `Cleanup` may remove.
use whatsupp.Base.{
  ℕ, ◌+◌, ◌≤◌, ◌<◌, ◌≡◌, ◌≢◌, refl, String, false, not, ◌&&◌, inl, inr, List, [], ◌∷◌, Option, none,
  some, arith, eq_iff, leb, ltb,
}
use whatsupp.Login.{
  LoginRecord, LoginRateLimiter, new_record, record_of, rate_limit_window, lockout_duration,
  allow_record, allow, record_failure, record_success, clean_record, cleanup,
}
use whatsupp.Login.Window.{
  Event, attempt, fails, succeeds, cleans, step, count_recent, length-recent, clean_record_cases,
  none_recent,
}

-- Calls with times in [from, limit), none of which is a success of the address.
abbrev pub Within : String → ℕ → ℕ → List Event → Type 0
Within ip from limit [] = Unit
Within ip from limit (attempt j t ∷ es) = (from ≤ t) × (t < limit) × Within ip from limit es
Within ip from limit (fails j t ∷ es) = (from ≤ t) × (t < limit) × Within ip from limit es
Within ip from limit (succeeds j ∷ es) = (j ≢ ip) × Within ip from limit es
Within ip from limit (cleans t ∷ es) = (from ≤ t) × (t < limit) × Within ip from limit es

abbrev pub run : LoginRateLimiter → List Event → LoginRateLimiter
run rl [] = rl
run rl (e ∷ es) = run (step rl e) es

abbrev locked : LoginRateLimiter → String → ℕ
locked rl ip = (record_of (rl ip)).locked_until

run-locked :
    (rl : LoginRateLimiter) (ip : String) (from : ℕ) (es : List Event)
    → from + lockout_duration ≤ locked rl ip
    → Within ip from (from + lockout_duration) es
    → from + lockout_duration ≤ locked (run rl es) ip
run-locked rl ip from [] h w = h
run-locked rl ip from (attempt j t ∷ es) h w =
    run-locked (allow rl j t).0 ip from es
      (unfold allow allow_record in ground (arith, eq_iff j ip)) w.2
run-locked rl ip from (fails j t ∷ es) h w =
    run-locked (record_failure rl j t) ip from es
      (unfold record_failure in ground (arith, eq_iff j ip)) w.2
run-locked rl ip from (succeeds j ∷ es) h w =
    run-locked (record_success rl j) ip from es
      (unfold record_success in ground (arith, eq_iff j ip, w.0)) w.1
run-locked rl ip from (cleans t ∷ es) h w =
    run-locked (cleanup rl t) ip from es (unfold cleanup clean_record in ground arith) w.2

-- After a failure that is at least the tenth in a row of an address, no attempt of it passes for 15
-- minutes, whatever other calls are made in that time, unless the address has a success.
pub locked_out :
    (rl : LoginRateLimiter) (ip : String) (from now : ℕ) (es : List Event)
    → 9 ≤ (record_of (rl ip)).failures
    → Within ip from (from + lockout_duration) es
    → now < from + lockout_duration
    → (allow (run (record_failure rl ip from) es) ip now).1 ≡ false
unfolding allow allow_record
locked_out rl ip from now es h w lt = ground (
  arith,
  run-locked (record_failure rl ip from) ip from es
      (unfold record_failure in ground (arith, eq_iff ip ip)) w,
)

allowed_by_count :
    (rec : LoginRecord) (now : ℕ)
    → (allow_record rec now).1 ≡ (
        not (ltb now rec.locked_until)
        && not (leb 5 (count_recent now rate_limit_window rec.attempts)))
unfolding allow_record
allowed_by_count rec now = ground (arith, length-recent now rate_limit_window rec.attempts)

allow-clean_record :
    (o : Option LoginRecord) (now later : ℕ)
    → now ≤ later
    → (allow_record (record_of (clean_record o now)) later).1 ≡ (allow_record (record_of o) later).1
allow-clean_record none now later h = unfold clean_record in refl
allow-clean_record (some rec) now later h = elim (clean_record_cases rec now) [
  | inl kept ↦ rw kept
  | inr (gone, old, _, unlocked) ↦
      rw (gone, allowed_by_count rec later)
        (ground (
          arith,
          allowed_by_count new_record later,
          none_recent now later rate_limit_window rec.attempts h old,
        ))
]

-- `Cleanup` cannot be observed: an address is allowed after it, at any later time, exactly if it
-- would be allowed without it.
pub allow-cleanup :
    (rl : LoginRateLimiter) (ip : String) (now later : ℕ)
    → now ≤ later
    → (allow (cleanup rl now) ip later).1 ≡ (allow rl ip later).1
unfolding allow cleanup
allow-cleanup rl ip now later h = allow-clean_record (rl ip) now later h
