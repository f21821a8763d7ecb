-- ===== src/Users/Passwords.antt =====
-- internal/api: what a first start and a change of a password leave in the table of users.
use whatsupp.Base.{
  ℕ, ◌≡◌, ◌≢◌, refl, inl, inr, String, Bool, true, List, [], ◌∷◌, Option, none, some, arith, ◌==◌,
  eq_iff, if◌then◌else◌, Option-cases,
}
use whatsupp.Users.{
  User, user_by_name, user_by_id, create_user, update_one, update_user_password, Faults, created,
  PasswordChange, changed, ensure_admin_user, change_password,
}

user_by_name-update :
    (name hash : String) (id : ℕ) (us : List User) (u : User)
    → user_by_name name us ≡ some u
    → user_by_name name (update_user_password id hash us) ≡ some (update_one id hash u)
unfolding user_by_name update_user_password
user_by_name-update name hash id [] u found = cc
user_by_name-update name hash id (v ∷ us) u found =
    ground (arith, user_by_name-update name hash id us u)

user_by_id-id : (id : ℕ) (us : List User) (u : User) → user_by_id id us ≡ some u → u.id ≡ id
unfolding user_by_id
user_by_id-id id [] u found = cc
user_by_id-id id (v ∷ us) u found = ground (arith, user_by_id-id id us u)

-- bcrypt: a hash fits the password that it was made from.
module _ (hash_password : String → Option String) (check_password : String → String → Bool)
    (bcrypt : (p h : String) → hash_password p ≡ some h → check_password h p ≡ true) where
  -- A first start that does not fail leaves the users that there are; if there are none, it leaves
  -- one, with the configured name, which is not empty, and a hash that fits the configured password.
  ensure_admin_user_lem :
      (f : Faults) (username password : String) (us : List User)
      → ensure_admin_user hash_password f username password [] ≡ created us
      → (u : User) × (us ≡ u ∷ [])
        × (u.username ≡ username)
        × (username ≢ "")
        × (check_password u.password_hash password ≡ true)
  unfolding ensure_admin_user create_user user_by_name
  ensure_admin_user_lem f username password us e = elim (Option-cases (hash_password password)) [
    | inl failed ↦ absurd (ground (arith, e, failed))
    | inr (h, hashed) ↦
        let u : User = record { id = 1; username = username; password_hash = h } in
        (
          u,
          ground (arith, e, hashed),
          refl,
          ground (arith, e, hashed, eq_iff username ""),
          bcrypt password h hashed,
        )
  ]

  -- A password is changed only by a user whose current password was given. After that the user, found
  -- by the same name, has a hash that fits the new password, and every other user is as before.
  pub change_password_lem :
      (f : Faults) (user_id : Option ℕ) (r : PasswordChange) (users us : List User) (name : String)
      (u : User)
      → change_password hash_password check_password f user_id (some r) users ≡ changed us
      → user_by_name name users ≡ some u
      → (id : ℕ) × (current : User) × (h : String) × (user_id ≡ some id)
        × (user_by_id id users ≡ some current)
        × (check_password current.password_hash r.current_password ≡ true)
        × (check_password h r.new_password ≡ true)
        × (user_by_name name us ≡ some (if u.id == id then record u { password_hash = h } else u))
  unfolding change_password
  change_password_lem f none r users us name u e found = absurd (ground (arith, e))
  change_password_lem f (some id) r users us name u e found =
      elim (Option-cases (user_by_id id users)) [
        | inl unknown ↦ absurd (ground (arith, e, unknown))
        | inr (current, known) ↦ elim (Option-cases (hash_password r.new_password)) [
          | inl failed ↦ absurd (ground (arith, e, known, failed))
          | inr (h, hashed) ↦
              let same_id : current.id ≡ id = user_by_id-id id users current known in
              let stored : us ≡ update_user_password id h users =
                rw (← same_id) ground (arith, e, known, hashed) in
              (
                id,
                current,
                h,
                refl,
                known,
                ground (arith, e, known),
                bcrypt r.new_password h hashed,
                rw stored (unfold update_one in user_by_name-update name h id users u found),
              )
        ]
      ]
