-- ===== src/Examples/Access.antt =====
-- internal/api/auth.go, internal/hub/hub.go: a login of the user admin, and a start and a reload of a
-- hub.
use whatsupp.Base.{
  ◌*◌, ◌≡◌, refl, String, Bool, true, false, none, some, arith, str_eq, [], ◌∷◌, insert, empty_map,
  Bool-cases, inl, inr, All,
}
use whatsupp.Login.{allow, allow_record, record_success}
use whatsupp.Users.{User, user_by_name}
use whatsupp.Sessions.{
  Auth, Faults, Times, Credentials, as_user, login, check_credentials, create_session, find_user,
  authenticate, logged_in, second,
}
use whatsupp.Sessions.Expiry.{login_authenticates}
use whatsupp.Store.{fresh_id}
use whatsupp.Store.Incidents.{open_count}
use whatsupp.Config.{ok}
use whatsupp.Hub.{resolve_stale_incidents}
use whatsupp.Hub.Reload.{new_hub, reload_config}
use whatsupp.Hub.Consistency.{Consistent}
use whatsupp.Hub.Restart.{IsUpIn, start-Consistent, reload_config-Consistent}
use whatsupp.Examples.Hubs.{hub, hub-Consistent}
use whatsupp.Examples.Settings.{config}

-- A hash that is the password itself.
abbrev fits : String → String → Bool
fits hash password = str_eq hash password

abbrev fine : Faults
fine = record {
  get_user = false;
  create_session = false;
  get_session = false;
  renew_session = false;
  delete_session = false;
}

abbrev admin : User
admin = record { id = 1; username = "admin"; password_hash = "secret" }

abbrev auth : Auth
auth = record { limiter = empty_map; users = admin ∷ []; sessions = empty_map }

abbrev times : Times
times = record { attempted = 10 * second; refused = 10 * second; granted = 11 * second }

abbrev credentials : Credentials
credentials = record { username = "admin"; password = "secret" }

abbrev after_login : Auth
after_login = (login fits fine times "a" (some credentials) (some "token") auth).1

logs_in :
    login fits fine times "a" (some credentials) (some "token") auth
    ≡ (logged_in "token", after_login)
unfolding login check_credentials find_user user_by_name create_session allow allow_record
    record_success
logs_in = refl

login_authenticates_example :
    (c : Credentials) × (user : User) × (some credentials ≡ some c)
    × (user_by_name c.username auth.users ≡ some user)
    × (fits user.password_hash c.password ≡ true)
    × ((authenticate fine (600 * second) (600 * second) (some "token") after_login).0
        ≡ as_user user.id)
login_authenticates_example =
    login_authenticates fits fine fine times "a" "token" (some credentials) (some "token") auth
      after_login (600 * second) (600 * second) logs_in refl (omega arith)

abbrev with_session : Auth
with_session = record {
  limiter = empty_map;
  users = admin ∷ [];
  sessions = insert empty_map "token" (record { user_id = 1; expires_at = 86_400 });
}

accepted :
    (authenticate fine (600 * second) (601 * second) (some "token") with_session).0 ≡ as_user 1
unfolding authenticate
accepted = refl

start-Consistent_example :
    let h = resolve_stale_incidents 500 (new_hub config hub.store) in
    Consistent h
    × All (IsUpIn h.monitor_states) config.monitors
    × ((j : String) → open_count j h.store.tables.incidents ≡ 0)
start-Consistent_example =
    start-Consistent config hub.store 500 (λ n. refl)
      (unfold fresh_id in (omega arith, (omega arith, tt)))

unknown_closed :
    (m : String) → hub.monitor_states m ≡ none → open_count m hub.store.tables.incidents ≡ 0
unknown_closed m unknown = elim (Bool-cases (str_eq "web" m)) [
  | inl web ↦ ground arith
  | inr other ↦ ground arith
]

reload_config-Consistent_example : Consistent (reload_config (ok config) hub)
reload_config-Consistent_example =
    reload_config-Consistent (ok config) hub hub-Consistent unknown_closed
