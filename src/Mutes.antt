-- ===== src/Mutes.antt =====
-- The mutes of alerts: the table alert_mutes of internal/store/queries.go, ListMutes and ToggleMute of
-- internal/api/handlers.go, and the part of internal/hub/hub.go that tells the alerter of them.
pub mod Agreement
use whatsupp.Base.{
  String, Bool, true, false, not, ◌||◌, List, [], ◌∷◌, Option, none, some, str_eq, if◌then◌else◌,
  keep_if, Map, empty_map, insert,
}
use whatsupp.Alerting.{NtfyClient, set_muted, mute, unmute}

-- The names of the table, and the alerter that the hub holds.
pub record Mutes : Type 0 where
  pub table : List String
  pub alerter : NtfyClient

-- Which calls of the store fail.
pub record Faults : Type 0 where
  pub get_muted : Bool
  pub set_mute : Bool
  pub remove_mute : Bool

abbrev pub holds : String → List String → Bool
holds name [] = false
holds name (n ∷ names) = str_eq n name || holds name names

unfoldable pub as_set : List String → Map Bool
as_set [] = empty_map
as_set (n ∷ names) = insert (as_set names) n true

unfoldable pub get_muted_names : Faults → List String → Option (Map Bool)
unfolding as_set
get_muted_names f table = if f.get_muted then none else some (as_set table)

-- INSERT OR IGNORE: none for an error.
unfoldable pub set_mute : Faults → String → List String → Option (List String)
set_mute f name table =
    if f.set_mute then none else some (if holds name table then table else name ∷ table)

unfoldable pub remove_mute : Faults → String → List String → Option (List String)
remove_mute f name table =
    if f.remove_mute then none else some (keep_if (λ n. not (str_eq n name)) table)

unfoldable pub count_muted : String → List String → Bool
count_muted name table = holds name table

unfoldable pub mute_alerts : String → Mutes → Mutes
unfolding mute
mute_alerts name m = record m { alerter = mute m.alerter name }

unfoldable pub unmute_alerts : String → Mutes → Mutes
unfolding unmute
unmute_alerts name m = record m { alerter = unmute m.alerter name }

-- The part of Run that loads the mutes: an error leaves the alerter as it is.
unfoldable pub load_mutes : Faults → Mutes → Mutes
unfolding get_muted_names set_muted
load_mutes f m = elim (get_muted_names f m.table) [
  | none ↦ m
  | some muted ↦ record m { alerter = set_muted m.alerter muted }
]

pub data Reply : Type 0 where
  query_failed unmute_failed mute_failed : Reply
  now_muted : String → Bool → Reply

-- A missing key reads as false.
abbrev pub value : Option Bool → Bool
value none = false
value (some b) = b

abbrev pub lookup : Map Bool → String → Bool
lookup muted name = value (muted name)

unfoldable pub toggle_off : Faults → String → Mutes → Reply × Mutes
unfolding remove_mute unmute_alerts
toggle_off f name m = elim (remove_mute f name m.table) [
  | none ↦ (unmute_failed, m)
  | some table ↦ (now_muted name false, unmute_alerts name (record m { table = table }))
]

unfoldable pub toggle_on : Faults → String → Mutes → Reply × Mutes
unfolding set_mute mute_alerts
toggle_on f name m = elim (set_mute f name m.table) [
  | none ↦ (mute_failed, m)
  | some table ↦ (now_muted name true, mute_alerts name (record m { table = table }))
]

unfoldable pub toggle_mute : Faults → String → Mutes → Reply × Mutes
unfolding get_muted_names toggle_off toggle_on
toggle_mute f name m = elim (get_muted_names f m.table) [
  | none ↦ (query_failed, m)
  | some muted ↦ if lookup muted name then toggle_off f name m else toggle_on f name m
]

-- `order` is the order of the loop over the map.
unfoldable pub list_mutes :
    (List String → List String) → Faults → List String → Option (List String)
list_mutes order f table = if f.get_muted then none else some (order table)

-- Requests one after another, each with its own failures.
abbrev pub toggle_all : List (Faults × String) → Mutes → Mutes
toggle_all [] m = m
toggle_all ((f, name) ∷ rs) m = toggle_all rs (toggle_mute f name m).1
