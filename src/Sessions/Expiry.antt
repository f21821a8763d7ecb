-- ===== src/Sessions/Expiry.antt =====
-- internal/api/auth.go and middleware.go: what a login gives access to, and for how long.
use whatsupp.Base.{
  ℕ, ◌+◌, ◌/◌, ◌≤◌, ◌<◌, ◌≡◌, refl, String, Bool, true, false, Option, none, some, arith, eq_iff,
  Option-cases, inl, inr,
}
use whatsupp.Login.{allow, record_success}
use whatsupp.Users.{User, user_by_name}
use whatsupp.Sessions.{
  Auth, Faults, Times, Credentials, logged_in, as_user, expired, unauthorized, second, session_ttl,
  create_session, find_user, check_credentials, login, logout, renew_session, authenticate,
}

-- A session that lasts for a second more than the present, whatever the rounding of its expiry.
granted_until :
    (g : Faults) (now later until user_id : ℕ) (token : String) (a : Auth)
    → g.get_session ≡ false
    → a.sessions token ≡ some (record { user_id = user_id; expires_at = until / second })
    → now + second ≤ until
    → (authenticate g now later (some token) a).0 ≡ as_user user_id
unfolding authenticate
granted_until g now later until user_id token a fine found soon = ground (arith, fine, found)

expired_after :
    (g : Faults) (now later until user_id : ℕ) (token : String) (a : Auth)
    → g.get_session ≡ false
    → a.sessions token ≡ some (record { user_id = user_id; expires_at = until / second })
    → until < now
    → (authenticate g now later (some token) a).0 ≡ expired
unfolding authenticate
expired_after g now later until user_id token a fine found past = ground (arith, fine, found)

created :
    (f : Faults) (token : String) (user_id until : ℕ) (a a' : Auth)
    → create_session f token user_id until a ≡ some a'
    → a'.sessions token ≡ some (record { user_id = user_id; expires_at = until / second })
unfolding create_session
created f token user_id until a a' e = ground (arith, e, eq_iff token token)

module _ (check_password : String → String → Bool) where
  -- A login that succeeds had a body with the name of a user and a password that fits its hash, and
  -- its token is in the table with that user until the time to live is over.
  abbrev Granted : Times → String → Option Credentials → Auth → Auth → Type 0
  Granted times t body a a' =
      (c : Credentials) × (user : User) × (body ≡ some c)
      × (user_by_name c.username a.users ≡ some user)
      × (check_password user.password_hash c.password ≡ true)
      × (a'.sessions t
          ≡ some
              (record { user_id = user.id; expires_at = (times.granted + session_ttl) / second }))

  login-Granted :
      (f : Faults) (times : Times) (ip t : String) (body : Option Credentials)
      (token : Option String) (a a' : Auth)
      → login check_password f times ip body token a ≡ (logged_in t, a')
      → Granted times t body a a'
  unfolding login check_credentials find_user
  login-Granted f times ip t none token a a' e = absurd (ground (arith, e))
  login-Granted f times ip t (some c) none a a' e =
      elim (Option-cases (user_by_name c.username a.users)) [
        | inl unknown ↦ absurd (ground (arith, e, unknown))
        | inr (user, found) ↦ absurd (ground (arith, e, found))
      ]
  login-Granted f times ip t (some c) (some token) a a' e =
      let cleared : Auth = record a {
        limiter = record_success (allow a.limiter ip times.attempted).0 ip;
      } in
      elim (Option-cases (user_by_name c.username a.users)) [
        | inl unknown ↦ absurd (ground (arith, e, unknown))
        | inr (user, found) ↦
            elim (Option-cases
              (create_session f token user.id (times.granted + session_ttl) cleared)) [
                | inl taken ↦ absurd (ground (arith, e, found, taken))
                | inr (a'', made) ↦ (
                  c,
                  user,
                  refl,
                  found,
                  ground (arith, e, found, made),
                  ground (
                    arith,
                    e,
                    found,
                    made,
                    created f token user.id (times.granted + session_ttl) cleared a'' made,
                  ),
                )
              ]
      ]

  -- A login that succeeds was given the name of a user and a password that fits the user's hash, and
  -- its token is accepted as that user until a second before the time to live is over.
  pub login_authenticates :
      (f g : Faults) (times : Times) (ip t : String) (body : Option Credentials)
      (token : Option String) (a a' : Auth) (now later : ℕ)
      → login check_password f times ip body token a ≡ (logged_in t, a')
      → g.get_session ≡ false
      → now + second ≤ times.granted + session_ttl
      → (c : Credentials) × (user : User) × (body ≡ some c)
        × (user_by_name c.username a.users ≡ some user)
        × (check_password user.password_hash c.password ≡ true)
        × ((authenticate g now later (some t) a').0 ≡ as_user user.id)
  login_authenticates f g times ip t body token a a' now later e fine soon =
      let (c, user, given, found, fits, held) = login-Granted f times ip t body token a a' e in
      (c, user, given, found, fits, granted_until g now later _ user.id t a' fine held soon)

-- After a logout that does not fail, the token of the session is refused.
pub logged_out :
    (f g : Faults) (token : String) (a : Auth) (now later : ℕ)
    → f.delete_session ≡ false
    → (authenticate g now later (some token) (logout f (some token) a)).0 ≡ unauthorized
unfolding authenticate logout
logged_out f g token a now later fine = ground (arith, fine, eq_iff token token)

renewed :
    (g : Faults) (now later id : ℕ) (token : String) (a : Auth)
    → g.renew_session ≡ false
    → (authenticate g now later (some token) a).0 ≡ as_user id
    → (authenticate g now later (some token) a).1.sessions token
      ≡ some (record { user_id = id; expires_at = (later + session_ttl) / second })
unfolding authenticate renew_session
renewed g now later id token a fine e = elim (Option-cases (a.sessions token)) [
  | inl unknown ↦ absurd (ground (arith, e, unknown))
  | inr (session, found) ↦ ground (arith, e, found, fine, eq_iff token token)
]

-- An accepted request renews its session: a next request is accepted as the same user until a second
-- before the time to live is over again, and from the time after it on it is refused as expired.
session_slides :
    (g g' : Faults) (now later soon late after id : ℕ) (token : String) (a : Auth)
    → g.renew_session ≡ false
    → g'.get_session ≡ false
    → (authenticate g now later (some token) a).0 ≡ as_user id
    → soon + second ≤ later + session_ttl
    → later + session_ttl < late
    → let a' = (authenticate g now later (some token) a).1 in
      ((authenticate g' soon after (some token) a').0 ≡ as_user id)
      × ((authenticate g' late after (some token) a').0 ≡ expired)
session_slides g g' now later soon late after id token a fine fine' e s l =
    let held = renewed g now later id token a fine e in
    let a' = (authenticate g now later (some token) a).1 in
    (
      granted_until g' soon after _ id token a' fine' held s,
      expired_after g' late after _ id token a' fine' held l,
    )
