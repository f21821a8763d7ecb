-- ===== src/Sessions.antt =====
-- internal/api/auth.go and middleware.go: login, logout and the check of the session cookie, on the
-- session statements of internal/store/queries.go. A time is in nanoseconds, a stored expiry in
-- seconds of the Unix epoch. bcrypt and the token generator are parameters.
pub mod Expiry
use whatsupp.Base.{
  ℕ, ◌+◌, ◌*◌, ◌/◌, String, Bool, true, false, not, ◌&&◌, List, Option, none, some, ltb,
  if◌then◌else◌, Map, insert, delete,
}
use whatsupp.Users.{User, user_by_name}
use whatsupp.Login.{LoginRateLimiter, allow, record_failure, record_success}

abbrev pub second : ℕ
second = 1_000_000_000

abbrev pub session_ttl : ℕ
session_ttl = 86_400 * second

pub record Session : Type 0 where
  pub user_id : ℕ
  pub expires_at : ℕ

-- The limiter, the table of users, and the sessions by token.
pub record Auth : Type 0 where
  pub limiter : LoginRateLimiter
  pub users : List User
  pub sessions : Map Session

-- Which calls of the store fail.
pub record Faults : Type 0 where
  pub get_user : Bool
  pub create_session : Bool
  pub get_session : Bool
  pub renew_session : Bool
  pub delete_session : Bool

-- The readings of the clock during one login.
pub record Times : Type 0 where
  pub attempted : ℕ
  pub refused : ℕ
  pub granted : ℕ

pub record Credentials : Type 0 where
  pub username : String
  pub password : String

pub data Reply : Type 0 where
  logged_in : String → Reply
  too_many_attempts bad_request invalid_credentials internal_error : Reply

unfoldable pub find_user : Faults → Auth → String → Option User
unfolding user_by_name
find_user f a name = if f.get_user then none else user_by_name name a.users

-- The primary key refuses a token that is in use.
unfoldable pub create_session : Faults → String → ℕ → ℕ → Auth → Option Auth
create_session f token user_id expires_at a = elim (a.sessions token) [
  | none ↦
      if f.create_session
      then none
      else some (record a {
        sessions =
            insert a.sessions token
              (record { user_id = user_id; expires_at = expires_at / second });
      })
  | some session ↦ none
]

abbrev start_session : Faults → Times → Option String → User → Auth → Reply × Auth
start_session f times none user a = (internal_error, a)
start_session f times (some token) user a =
    elim (create_session f token user.id (times.granted + session_ttl) a) [
      | none ↦ (internal_error, a)
      | some a' ↦ (logged_in token, a')
    ]

abbrev refuse : Times → String → Auth → Reply × Auth
refuse times ip a =
    (invalid_credentials, record a { limiter = record_failure a.limiter ip times.refused })

-- `check_password` takes the hash and the password; `token` is none if the generator fails.
module _ (check_password : String → String → Bool) where
  unfoldable pub check_credentials :
      Faults → Times → String → Credentials → Option String → Auth → Reply × Auth
  unfolding create_session find_user
  check_credentials f times ip c token a = elim (find_user f a c.username) [
    | none ↦ refuse times ip a
    | some user ↦
        if check_password user.password_hash c.password
        then start_session f times token user (record a { limiter = record_success a.limiter ip })
        else refuse times ip a
  ]

  -- The body is none if it is no JSON object of the right form.
  unfoldable pub login :
      Faults → Times → String → Option Credentials → Option String → Auth → Reply × Auth
  unfolding check_credentials
  login f times ip body token a =
      let (limiter, allowed) = allow a.limiter ip times.attempted in
      let a' = record a { limiter = limiter } in
      if allowed
      then (elim body [
        | none ↦ (bad_request, a')
        | some c ↦ check_credentials f times ip c token a'
      ])
      else (too_many_attempts, a')

unfoldable pub logout : Faults → Option String → Auth → Auth
logout f none a = a
logout f (some token) a =
    if f.delete_session then a else record a { sessions = delete a.sessions token }

pub data Access : Type 0 where
  unauthorized expired : Access
  as_user : ℕ → Access

unfoldable pub renew_session : Faults → String → ℕ → Session → Auth → Auth
renew_session f token expires_at session a = if f.renew_session then a else record a {
  sessions = insert a.sessions token (record session { expires_at = expires_at / second });
}

-- The middleware, which reads the clock twice.
unfoldable pub authenticate : Faults → ℕ → ℕ → Option String → Auth → Access × Auth
unfolding renew_session
authenticate f now later none a = (unauthorized, a)
authenticate f now later (some token) a =
    if f.get_session then (unauthorized, a) else elim (a.sessions token) [
      | none ↦ (unauthorized, a)
      | some session ↦
          if ltb (session.expires_at * second) now
          then (expired, a)
          else (as_user session.user_id, renew_session f token (later + session_ttl) session a)
    ]

-- DELETE FROM sessions WHERE expires_at < now
unfoldable pub delete_expired_sessions : ℕ → Auth → Auth
delete_expired_sessions now a = record a {
  sessions = λ token. elim (a.sessions token) [
    | none ↦ none
    | some session ↦ if ltb session.expires_at (now / second) then none else some session
  ];
}
