-- ===== src/Login/Window.antt =====
-- internal/api/auth.go: at most five attempts of an address pass in any minute.
use whatsupp.Base.{
  ℕ, suc, ◌+◌, ◌*◌, ◌≤◌, ◌≡◌, refl, sym, ap, subst, ◌∙◌, ◌⊎◌, inl, inr, empty_map, String, Bool,
  true, false, List, [], ◌∷◌, ◌++◌, Option, none, some, arith, ltb, str_eq, eq_iff, if◌then◌else◌,
  length, Bool-cases,
}
use whatsupp.Login.{
  LoginRecord, LoginRateLimiter, record_of, recent, rate_limit_window, allow_record, allow,
  record_failure, record_success, clean_record, cleanup, has_any,
}

-- The entries of `ts` that lie after `now - age`.
abbrev pub count_recent : ℕ → ℕ → List ℕ → ℕ
count_recent now age [] = 0
count_recent now age (t ∷ ts) =
    let rest = count_recent now age ts in if ltb now (t + age) then suc rest else rest

pub length-recent :
    (now age : ℕ) (ts : List ℕ) → length (recent now age ts) ≡ count_recent now age ts
length-recent now age [] = refl
length-recent now age (t ∷ ts) = ground (arith, length-recent now age ts)

count-recent-recent :
    (now later age : ℕ) (ts : List ℕ)
    → now ≤ later
    → count_recent later age (recent now age ts) ≡ count_recent later age ts
count-recent-recent now later age [] h = refl
count-recent-recent now later age (t ∷ ts) h =
    ground (arith, count-recent-recent now later age ts h)

count-recent-append :
    (now age : ℕ) (ts : List ℕ) (t : ℕ)
    → count_recent now age (ts ++ t ∷ []) ≡ count_recent now age (t ∷ ts)
count-recent-append now age [] t = refl
count-recent-append now age (x ∷ ts) t = ground (arith, count-recent-append now age ts t)

-- With no attempt in the last two minutes there is none in the last minute, then or later.
pub none_recent :
    (now later age : ℕ) (ts : List ℕ)
    → now ≤ later
    → count_recent now (age * 2) ts ≡ 0
    → count_recent later age ts ≡ 0
none_recent now later age [] h e = refl
none_recent now later age (t ∷ ts) h e = ground (arith, none_recent now later age ts h)

count_recent-le-length : (now age : ℕ) (ts : List ℕ) → count_recent now age ts ≤ length ts
count_recent-le-length now age [] = omega arith
count_recent-le-length now age (t ∷ ts) = ground (arith, count_recent-le-length now age ts)

length-append_one : (ts : List ℕ) (t : ℕ) → length (ts ++ t ∷ []) ≡ suc (length ts)
length-append_one [] t = refl
length-append_one (x ∷ ts) t = ap suc (length-append_one ts t)

-- From `now` on, the record counts as many recent attempts as the list of those that passed.
record Agrees (now : ℕ) (rec : LoginRecord) (passed : List ℕ) : Type 0 where
  few : length rec.attempts ≤ 5
  same :
      (later : ℕ)
      → now ≤ later
      → count_recent later rate_limit_window rec.attempts
        ≡ count_recent later rate_limit_window passed

abbrev extended : Bool → ℕ → List ℕ → List ℕ
extended true t passed = t ∷ passed
extended false t passed = passed

allow_record-Agrees :
    (now t : ℕ) (rec : LoginRecord) (passed : List ℕ)
    → Agrees now rec passed
    → now ≤ t
    → Agrees t (allow_record rec t).0 (extended (allow_record rec t).1 t passed)
unfolding allow_record
allow_record-Agrees now t rec passed a h =
    let valid = recent t rate_limit_window rec.attempts in
    let shorter = length-recent t rate_limit_window rec.attempts in
    record {
      few = ground (
        arith,
        a.few,
        shorter,
        count_recent-le-length t rate_limit_window rec.attempts,
        length-append_one valid t,
      );
      same = λ later le. ground (
        arith,
        a.same later,
        count-recent-recent t later rate_limit_window rec.attempts le,
        count-recent-append later rate_limit_window valid t,
      );
    }

no_recent :
    (now age : ℕ) (ts : List ℕ) → has_any (recent now age ts) ≡ false → count_recent now age ts ≡ 0
no_recent now age [] h = refl
no_recent now age (t ∷ ts) h = ground (arith, no_recent now age ts)

-- A record is removed only with no attempt in two minutes, no failure and no lock.
pub clean_record_cases :
    (rec : LoginRecord) (now : ℕ)
    → (clean_record (some rec) now ≡ some rec)
      ⊎ ((clean_record (some rec) now ≡ none)
          × (count_recent now (rate_limit_window * 2) rec.attempts ≡ 0)
          × (rec.failures ≡ 0)
          × (rec.locked_until ≤ now))
unfolding clean_record
clean_record_cases rec now = ground (arith, no_recent now (rate_limit_window * 2) rec.attempts)

clean_record-Agrees :
    (now t : ℕ) (o : Option LoginRecord) (passed : List ℕ)
    → Agrees now (record_of o) passed
    → now ≤ t
    → Agrees t (record_of (clean_record o t)) passed
clean_record-Agrees now t none passed a h =
    unfold clean_record in record { few = a.few; same = λ later le. a.same later (omega arith) }
clean_record-Agrees now t (some rec) passed a h = elim (clean_record_cases rec t) [
  | inl kept ↦ rw kept (record { few = a.few; same = λ later le. a.same later (omega arith) })
  | inr (gone, old, _, _) ↦ rw gone (record {
    few = omega arith;
    same = λ later le.
        sym (none_recent t later rate_limit_window rec.attempts le old)
        ∙ a.same later (omega arith);
  })
]

-- The calls on one limiter, each with its time.
pub data Event : Type 0 where
  attempt : String → ℕ → Event
  fails : String → ℕ → Event
  succeeds : String → Event
  cleans : ℕ → Event

abbrev pub step : LoginRateLimiter → Event → LoginRateLimiter
step rl (attempt ip t) = (allow rl ip t).0
step rl (fails ip t) = record_failure rl ip t
step rl (succeeds ip) = record_success rl ip
step rl (cleans t) = cleanup rl t

-- The limiter after a history of calls, whose head is the newest.
abbrev pub after : List Event → LoginRateLimiter
after [] = empty_map
after (e ∷ older) = step (after older) e

-- The times of the attempts of an address that passed, newest first.
abbrev pub passed_of : String → List Event → List ℕ
passed_of ip [] = []
passed_of ip (attempt j t ∷ older) =
    let rest = passed_of ip older in
    if str_eq j ip then extended (allow (after older) j t).1 t rest else rest
passed_of ip (fails j t ∷ older) = passed_of ip older
passed_of ip (succeeds j ∷ older) = passed_of ip older
passed_of ip (cleans t ∷ older) = passed_of ip older

-- No call is later than `now`, and none is earlier than the one before it.
abbrev pub InOrder : ℕ → List Event → Type 0
InOrder now [] = Unit
InOrder now (attempt ip t ∷ older) = (t ≤ now) × InOrder t older
InOrder now (fails ip t ∷ older) = (t ≤ now) × InOrder t older
InOrder now (succeeds ip ∷ older) = InOrder now older
InOrder now (cleans t ∷ older) = (t ≤ now) × InOrder t older

Agrees-mono :
    {now later : ℕ} {rec : LoginRecord} {passed : List ℕ}
    → now ≤ later
    → Agrees now rec passed
    → Agrees later rec passed
Agrees-mono h a = record { few = a.few; same = λ t le. a.same t (omega arith) }

Agrees-of_attempts :
    {now : ℕ} (rec rec' : LoginRecord) {passed : List ℕ}
    → rec'.attempts ≡ rec.attempts
    → Agrees now rec passed
    → Agrees now rec' passed
Agrees-of_attempts rec rec' e a = record { few = rw e a.few; same = λ t le. rw e (a.same t le) }

attempts-record_failure :
    (rl : LoginRateLimiter) (j ip : String) (t : ℕ)
    → (record_of (record_failure rl j t ip)).attempts ≡ (record_of (rl ip)).attempts
unfolding record_failure
attempts-record_failure rl j ip t = ground (arith, eq_iff j ip)

attempts-record_success :
    (rl : LoginRateLimiter) (j ip : String)
    → (record_of (record_success rl j ip)).attempts ≡ (record_of (rl ip)).attempts
unfolding record_success
attempts-record_success rl j ip = ground (arith, eq_iff j ip)

after-Agrees :
    (ip : String) (now : ℕ) (history : List Event)
    → InOrder now history
    → Agrees now (record_of (after history ip)) (passed_of ip history)
unfolding allow cleanup
after-Agrees ip now [] h = record { few = omega arith; same = λ later le. refl }
after-Agrees ip now (attempt j t ∷ older) h =
    let ih = after-Agrees ip t older h.1 in
    elim (Bool-cases (str_eq j ip)) [
      | inl hit ↦
          let e : ip ≡ j = sym ((eq_iff j ip).0 hit) in
          let at_j = subst (λ k. Agrees t (record_of (after older k)) (passed_of ip older)) e ih in
          rw hit (Agrees-mono h.0 (allow_record-Agrees t t _ _ at_j (omega arith)))
      | inr miss ↦ rw miss (Agrees-mono h.0 ih)
    ]
after-Agrees ip now (fails j t ∷ older) h =
    Agrees-of_attempts _ _ (attempts-record_failure (after older) j ip t)
      (Agrees-mono h.0 (after-Agrees ip t older h.1))
after-Agrees ip now (succeeds j ∷ older) h =
    Agrees-of_attempts _ _ (attempts-record_success (after older) j ip)
      (after-Agrees ip now older h)
after-Agrees ip now (cleans t ∷ older) h =
    Agrees-mono h.0 (clean_record-Agrees t t _ _ (after-Agrees ip t older h.1) (omega arith))

-- After any calls on a new limiter whose times do not decrease, at most five of the attempts of an
-- address that passed lie in the minute before the present.
pub passed_in_a_minute :
    (ip : String) (now : ℕ) (history : List Event)
    → InOrder now history
    → count_recent now rate_limit_window (passed_of ip history) ≤ 5
passed_in_a_minute ip now history h =
    let a = after-Agrees ip now history h in
    omega (
      arith,
      a.few,
      a.same now (omega arith),
      count_recent-le-length now rate_limit_window (record_of (after history ip)).attempts,
    )
