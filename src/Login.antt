-- ===== src/Login.antt =====
-- internal/api/auth.go: the per-IP limit on login attempts. Times are nanoseconds since the zero
-- time, so that the zero `lockedUntil` is 0; `t.After(now.Add(-d))` is written `now < t + d`.
pub mod Window
pub mod Lockout
use whatsupp.Base.{
  ℕ, ◌+◌, ◌*◌, String, Bool, true, false, not, ◌&&◌, List, [], ◌∷◌, ◌++◌, Option, none, some, ltb,
  leb, ◌==◌, if◌then◌else◌, length, keep_if, Map, empty_map, insert,
}

abbrev pub rate_limit_per_minute : ℕ
rate_limit_per_minute = 5

abbrev pub lockout_threshold : ℕ
lockout_threshold = 10

abbrev pub lockout_duration : ℕ
lockout_duration = 900_000_000_000

abbrev pub rate_limit_window : ℕ
rate_limit_window = 60_000_000_000

pub record LoginRecord : Type 0 where
  pub attempts : List ℕ
  pub failures : ℕ
  pub locked_until : ℕ

abbrev pub LoginRateLimiter : Type 0
LoginRateLimiter = Map LoginRecord

abbrev pub new_record : LoginRecord
new_record = record { attempts = []; failures = 0; locked_until = 0 }

abbrev pub record_of : Option LoginRecord → LoginRecord
record_of none = new_record
record_of (some rec) = rec

-- The attempts after `now - age`.
abbrev pub recent : ℕ → ℕ → List ℕ → List ℕ
recent now age = keep_if (λ t. ltb now (t + age))

-- What `Allow` does to the record of the address.
unfoldable pub allow_record : LoginRecord → ℕ → LoginRecord × Bool
allow_record rec now =
    if ltb now rec.locked_until
    then (rec, false)
    else let valid = recent now rate_limit_window rec.attempts in
      if leb rate_limit_per_minute (length valid)
      then (record rec { attempts = valid }, false)
      else (record rec { attempts = valid ++ now ∷ [] }, true)

unfoldable pub allow : LoginRateLimiter → String → ℕ → LoginRateLimiter × Bool
unfolding allow_record
allow rl ip now =
    let (rec, allowed) = allow_record (record_of (rl ip)) now in (insert rl ip rec, allowed)

unfoldable pub fail_record : LoginRecord → ℕ → LoginRecord
fail_record rec now =
    let failures = rec.failures + 1 in
    if leb lockout_threshold failures
    then record rec { failures = failures; locked_until = now + lockout_duration }
    else record rec { failures = failures }

unfoldable pub record_failure : LoginRateLimiter → String → ℕ → LoginRateLimiter
unfolding fail_record
record_failure rl ip now = insert rl ip (fail_record (record_of (rl ip)) now)

unfoldable pub record_success : LoginRateLimiter → String → LoginRateLimiter
record_success rl ip = elim (rl ip) [
  | none ↦ rl
  | some rec ↦ insert rl ip (record rec { failures = 0; locked_until = 0 })
]

abbrev has_any : List ℕ → Bool
has_any [] = false
has_any (t ∷ ts) = true

-- What `Cleanup` leaves of one entry.
unfoldable pub clean_record : Option LoginRecord → ℕ → Option LoginRecord
clean_record none now = none
clean_record (some rec) now =
    if ltb now rec.locked_until
    then some rec
    else if not (has_any (recent now (rate_limit_window * 2) rec.attempts)) && rec.failures == 0
    then none
    else some rec

unfoldable pub cleanup : LoginRateLimiter → ℕ → LoginRateLimiter
unfolding clean_record
cleanup rl now ip = clean_record (rl ip) now
