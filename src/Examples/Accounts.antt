-- ===== src/Examples/Accounts.antt =====
-- internal/api: a first start, a change of a password, and toggles of mutes.
use whatsupp.Base.{
  ℕ, arith, ◌≡◌, refl, String, Bool, true, false, List, [], ◌∷◌, Option, none, some, str_eq, eq_iff,
  if◌then◌else◌, ◌==◌, pos,
}
use whatsupp.Alerting.{is_muted, new_ntfy_client}
use whatsupp.Users.{
  User, Faults, PasswordChange, created, changed, user_by_name, user_by_id, update_one,
  update_user_password, next_user_id, create_user, ensure_admin_user, change_password,
}
use whatsupp.Users.Passwords.{change_password_lem}
use whatsupp.Mutes.{Mutes, load_mutes, toggle_all}
use whatsupp.Mutes.{Faults as MuteFaults}
use whatsupp.Mutes.Agreement.{Agree, restart_keeps_mutes}

-- A hash that is the password itself; it refuses one password.
abbrev hash : String → Option String
hash password = if str_eq password "long" then none else some password

abbrev fits : String → String → Bool
fits h password = str_eq h password

hash-fits : (p h : String) → hash p ≡ some h → fits h p ≡ true
hash-fits p h e = ground (arith, e, eq_iff h p)

abbrev fine : Faults
fine = record {
  count_users = false;
  insert_user = false;
  get_user = false;
  update_password = false;
}

abbrev admin : User
admin = record { id = 1; username = "admin"; password_hash = "secret" }

first_start : ensure_admin_user hash fine "admin" "secret" [] ≡ created (admin ∷ [])
unfolding ensure_admin_user create_user user_by_name next_user_id
first_start = refl

abbrev guest : User
guest = record { id = 2; username = "guest"; password_hash = "guest" }

abbrev request : PasswordChange
request = record { current_password = "secret"; new_password = "better" }

changes :
    change_password hash fits fine (some 1) (some request) (admin ∷ guest ∷ [])
    ≡ changed (record admin { password_hash = "better" } ∷ guest ∷ [])
unfolding change_password user_by_id update_user_password update_one
changes = refl

found : user_by_name "guest" (admin ∷ guest ∷ []) ≡ some guest
unfolding user_by_name
found = refl

change_password_lem_example :
    (id : ℕ) × (current : User) × (h : String) × (some 1 ≡ some id)
    × (user_by_id id (admin ∷ guest ∷ []) ≡ some current)
    × (fits current.password_hash "secret" ≡ true)
    × (fits h "better" ≡ true)
    × (user_by_name "guest" (record admin { password_hash = "better" } ∷ guest ∷ [])
        ≡ some (if 2 == id then record guest { password_hash = h } else guest))
change_password_lem_example =
    change_password_lem hash fits hash-fits fine (some 1) request (admin ∷ guest ∷ [])
      (record admin { password_hash = "better" } ∷ guest ∷ []) "guest" guest changes found

abbrev all_fine : MuteFaults
all_fine = record { get_muted = false; set_mute = false; remove_mute = false }

abbrev broken : MuteFaults
broken = record { get_muted = false; set_mute = true; remove_mute = false }

abbrev stored : Mutes
stored = record { table = "web" ∷ []; alerter = new_ntfy_client (pos 0) }

abbrev toggles : List (MuteFaults × String)
toggles = (all_fine, "dns") ∷ (broken, "mail") ∷ (all_fine, "web") ∷ []

restart_keeps_mutes_example :
    (let now = toggle_all toggles (load_mutes all_fine stored) in
      is_muted
        (load_mutes all_fine (record now { alerter = new_ntfy_client (pos 0) })).alerter
        "dns"
      ≡ is_muted now.alerter "dns")
restart_keeps_mutes_example =
    restart_keeps_mutes all_fine all_fine toggles stored (new_ntfy_client (pos 0)) "dns" refl refl

abbrev unmuted : Mutes
unmuted = record { table = []; alerter = new_ntfy_client (pos 0) }

unmuted-Agree : Agree unmuted
unfolding Agree is_muted new_ntfy_client
unmuted-Agree name = refl
