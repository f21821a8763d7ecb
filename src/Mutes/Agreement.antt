-- ===== src/Mutes/Agreement.antt =====
-- internal/api/handlers.go, internal/hub/hub.go: the alerter's set of mutes and the stored one.
use whatsupp.Base.{
  ◌≡◌, refl, ap, ◌∙◌, String, Bool, true, false, not, ◌||◌, List, [], ◌∷◌, Option, some, arith,
  str_eq, eq_iff, if◌then◌else◌, keep_if,
}
use whatsupp.Alerting.{NtfyClient, is_muted, mute, unmute, set_muted}
use whatsupp.Mutes.{
  Mutes, Faults, holds, as_set, get_muted_names, set_mute, remove_mute, mute_alerts, unmute_alerts,
  load_mutes, now_muted, toggle_off, toggle_on, toggle_mute, toggle_all, lookup, value,
}

-- The alerter mutes the names of the table and no other.
unfoldable pub Agree : Mutes → Type 0
Agree m = (name : String) → is_muted m.alerter name ≡ holds name m.table

value-if : (b : Bool) (o : Option Bool) → value (if b then some true else o) ≡ (b || value o)
value-if true o = refl
value-if false o = refl

lookup-as_set :
    (names : List String) (name : String) → lookup (as_set names) name ≡ holds name names
unfolding as_set
lookup-as_set [] name = refl
lookup-as_set (n ∷ names) name =
    value-if (str_eq n name) (as_set names name)
    ∙ ap (λ b. str_eq n name || b) (lookup-as_set names name)

holds-remove :
    (name j : String) (names : List String)
    → holds j (keep_if (λ n. not (str_eq n name)) names)
      ≡ (if str_eq name j then false else holds j names)
holds-remove name j [] = ground arith
holds-remove name j (n ∷ names) =
    ground (arith, holds-remove name j names, eq_iff n name, eq_iff n j, eq_iff name j)

toggle_off-Agree :
    (f : Faults) (name : String) (m : Mutes) → Agree m → Agree (toggle_off f name m).1
unfolding Agree toggle_off remove_mute unmute_alerts unmute is_muted
toggle_off-Agree f name m a j = ground (arith, a j, holds-remove name j m.table)

toggle_on-Agree : (f : Faults) (name : String) (m : Mutes) → Agree m → Agree (toggle_on f name m).1
unfolding Agree toggle_on set_mute mute_alerts mute is_muted
toggle_on-Agree f name m a j = ground (arith, a j, eq_iff name j)

-- A request to toggle a mute, whatever fails in it, keeps the alerter in agreement with the table.
toggle_mute-Agree :
    (f : Faults) (name : String) (m : Mutes) → Agree m → Agree (toggle_mute f name m).1
unfolding Agree toggle_mute get_muted_names
toggle_mute-Agree f name m a j =
    ground (arith, a j, toggle_off-Agree f name m a j, toggle_on-Agree f name m a j)

toggle_all-Agree : (rs : List (Faults × String)) (m : Mutes) → Agree m → Agree (toggle_all rs m)
toggle_all-Agree [] m a = a
toggle_all-Agree ((f, name) ∷ rs) m a =
    toggle_all-Agree rs (toggle_mute f name m).1 (toggle_mute-Agree f name m a)

load_mutes-Agree : (f : Faults) (m : Mutes) → f.get_muted ≡ false → Agree (load_mutes f m)
unfolding Agree load_mutes get_muted_names set_muted is_muted
load_mutes-Agree f m fine j = ground (arith, fine, lookup-as_set m.table j)

-- A restart forgets no mute: after a start that loads the mutes, and any toggles whatever fails in
-- them, an alerter that is made anew and loads the table mutes the same names as the running one.
pub restart_keeps_mutes :
    (f g : Faults) (rs : List (Faults × String)) (m : Mutes) (fresh : NtfyClient) (name : String)
    → f.get_muted ≡ false
    → g.get_muted ≡ false
    → let now = toggle_all rs (load_mutes f m) in
      is_muted (load_mutes g (record now { alerter = fresh })).alerter name
      ≡ is_muted now.alerter name
unfolding load_mutes
restart_keeps_mutes f g rs m fresh name fine fine' =
    let now = toggle_all rs (load_mutes f m) in
    let agree : Agree now = toggle_all-Agree rs (load_mutes f m) (load_mutes-Agree f m fine) in
    let again : Agree (load_mutes g (record now { alerter = fresh })) =
      load_mutes-Agree g (record now { alerter = fresh }) fine' in
    unfold Agree get_muted_names in ground (arith, agree name, again name, fine')

toggled :
    (f : Faults) (name j : String) (m : Mutes)
    → f.get_muted ≡ false
    → f.set_mute ≡ false
    → f.remove_mute ≡ false
    → Agree m
    → let (reply, m') = toggle_mute f name m in
      (reply ≡ now_muted name (not (is_muted m.alerter name)))
      × (is_muted m'.alerter j
          ≡ (if str_eq name j then not (is_muted m.alerter j) else is_muted m.alerter j))
unfolding Agree toggle_mute get_muted_names toggle_off toggle_on remove_mute set_mute unmute_alerts
    mute_alerts unmute mute is_muted
toggled f name j m fine can_set can_remove a =
    ground
      (arith, fine, can_set, can_remove, a name, a j, lookup-as_set m.table name, eq_iff name j)

-- A toggle in which nothing fails answers with the opposite of what the alerter did before, and
-- changes that for the one name only; the same toggle again takes it back.
pub toggle_mute_lem :
    (f : Faults) (name j : String) (m : Mutes)
    → f.get_muted ≡ false
    → f.set_mute ≡ false
    → f.remove_mute ≡ false
    → Agree m
    → let (reply, m') = toggle_mute f name m in
      (reply ≡ now_muted name (not (is_muted m.alerter name)))
      × (is_muted m'.alerter j
          ≡ (if str_eq name j then not (is_muted m.alerter j) else is_muted m.alerter j))
      × (is_muted (toggle_mute f name m').1.alerter j ≡ is_muted m.alerter j)
toggle_mute_lem f name j m fine can_set can_remove a =
    let m' = (toggle_mute f name m).1 in
    let once = toggled f name j m fine can_set can_remove a in
    let twice = toggled f name j m' fine can_set can_remove (toggle_mute-Agree f name m a) in
    (once.0, once.1, ground (arith, once.1, twice.1))
