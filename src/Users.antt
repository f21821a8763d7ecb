-- ===== src/Users.antt =====
-- The table of users: its statements in internal/store/queries.go, EnsureAdminUser of
-- internal/api/auth.go and ChangePassword of internal/api/handlers.go. bcrypt is a parameter.
pub mod Passwords
use whatsupp.Base.{
  ℕ, suc, String, Bool, true, false, not, ◌||◌, List, [], ◌∷◌, ◌++◌, Option, none, some, ltb, ◌==◌,
  str_eq, if◌then◌else◌, length, map,
}

pub record User : Type 0 where
  pub id : ℕ
  pub username : String
  pub password_hash : String

unfoldable pub user_by_name : String → List User → Option User
user_by_name name [] = none
user_by_name name (u ∷ us) =
    let rest = user_by_name name us in if str_eq u.username name then some u else rest

unfoldable pub user_by_id : ℕ → List User → Option User
user_by_id id [] = none
user_by_id id (u ∷ us) = let rest = user_by_id id us in if u.id == id then some u else rest

-- INTEGER PRIMARY KEY: one more than the greatest id.
unfoldable pub next_user_id : List User → ℕ
next_user_id [] = 1
next_user_id (u ∷ us) = let rest = next_user_id us in if ltb u.id rest then rest else suc u.id

-- The column is UNIQUE: none if the name is taken.
unfoldable pub create_user : String → String → List User → Option (List User)
unfolding user_by_name next_user_id
create_user name hash users = elim (user_by_name name users) [
  | none ↦
      let u : User = record { id = next_user_id users; username = name; password_hash = hash } in
      some (users ++ u ∷ [])
  | some u ↦ none
]

unfoldable pub update_one : ℕ → String → User → User
update_one id hash u = if u.id == id then record u { password_hash = hash } else u

unfoldable pub update_user_password : ℕ → String → List User → List User
unfolding update_one
update_user_password id hash = map (update_one id hash)

-- Which calls of the store fail.
pub record Faults : Type 0 where
  pub count_users : Bool
  pub insert_user : Bool
  pub get_user : Bool
  pub update_password : Bool

pub data Started : Type 0 where
  kept : Started
  created : List User → Started
  count_failed credentials_missing hash_failed insert_failed : Started

pub record PasswordChange : Type 0 where
  pub current_password : String
  pub new_password : String

pub data Reply : Type 0 where
  changed : List User → Reply
  bad_request unauthorized user_not_found wrong_password internal_error : Reply

module _ (hash_password : String → Option String) where
  unfoldable pub ensure_admin_user : Faults → String → String → List User → Started
  unfolding create_user
  ensure_admin_user f username password users =
      if f.count_users
      then count_failed
      else if ltb 0 (length users)
      then kept
      else if str_eq username "" || str_eq password ""
      then credentials_missing
      else elim (hash_password password) [
        | none ↦ hash_failed
        | some hash ↦
            if f.insert_user then insert_failed else elim (create_user username hash users) [
              | none ↦ insert_failed
              | some us ↦ created us
            ]
      ]

  abbrev store_password : Faults → ℕ → Option String → List User → Reply
  store_password f id none users = internal_error
  store_password f id (some hash) users =
      if f.update_password then internal_error else changed (update_user_password id hash users)

  -- `user_id` is what the session middleware put into the context.
  unfoldable pub change_password :
      (String → String → Bool) → Faults → Option ℕ → Option PasswordChange → List User → Reply
  unfolding user_by_id update_user_password
  change_password check_password f user_id none users = bad_request
  change_password check_password f user_id (some r) users =
      if str_eq r.current_password "" || str_eq r.new_password ""
      then bad_request
      else elim user_id [
        | none ↦ unauthorized
        | some id ↦ elim (if f.get_user then none else user_by_id id users) [
          | none ↦ user_not_found
          | some u ↦
              if not (check_password u.password_hash r.current_password)
              then wrong_password
              else store_password f u.id (hash_password r.new_password) users
        ]
      ]
