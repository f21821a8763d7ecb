-- ===== src/Hub/Restart.antt =====
-- internal/hub/hub.go: a start and a reload leave the incident table and the states in agreement.
use whatsupp.Base.{
  ℕ, ◌≡◌, refl, subst, ◌∙◌, String, true, List, [], ◌∷◌, Option, none, some, arith, str_eq, eq_iff,
  Map, empty_map, inl, inr, Option-cases, Bool-cases, ℤ, All, insert,
}
use whatsupp.Monitor.{MonitorState, up, is_down, new_monitor_state}
use whatsupp.Store.{Store, fresh_id}
use whatsupp.Store.Incidents.{open_count, Below, Below-fresh_id}
use whatsupp.Config.{Config, Monitor, Loaded, ok, err}
use whatsupp.Hub.{Hub, is_stale, resolve_stale_incidents}
use whatsupp.Hub.Consistency.{Consistent, NeverFails, as_count}
use whatsupp.Hub.Closing.{open_count-closed, resolve_stale-Closed}
use whatsupp.Hub.Reload.{
  initial_states, new_hub, reload_state, reload_states, reload_config, threshold_of,
}

-- A state after a reload has the status from before it, or is UP if the monitor is new.
abbrev Keeps : Option MonitorState → MonitorState → Type 0
Keeps none s = s.status ≡ up
Keeps (some o) s = s.status ≡ o.status

reload_state-Keeps :
    (o : Option MonitorState) (name : String) (t : ℤ) → Keeps o (reload_state o name t)
unfolding reload_state new_monitor_state
reload_state-Keeps none name t = refl
reload_state-Keeps (some o) name t = refl

reloaded-Keeps :
    (o : Option MonitorState) (name : String) (t : ℤ) (s : MonitorState)
    → some (reload_state o name t) ≡ some s
    → Keeps o s
reloaded-Keeps none name t s e = ground (arith, e, reload_state-Keeps none name t)
reloaded-Keeps (some o) name t s e = ground (arith, e, reload_state-Keeps (some o) name t)

count_kept :
    (o : Option MonitorState) (s : MonitorState) (n : ℕ)
    → Keeps o s
    → (o ≡ none → n ≡ 0)
    → ((ms : MonitorState) → o ≡ some ms → n ≡ as_count (is_down ms.status))
    → n ≡ as_count (is_down s.status)
count_kept none s n k none_open counts = rw k (none_open refl)
count_kept (some o) s n k none_open counts = rw k (counts o refl)

reload_states-Keeps :
    (cfg : Config) (ms : List Monitor) (old states : Map MonitorState)
    → ((m : String) (s : MonitorState) → states m ≡ some s → Keeps (old m) s)
    → (m : String) (s : MonitorState) → reload_states cfg ms old states m ≡ some s
    → Keeps (old m) s
unfolding reload_states
reload_states-Keeps cfg [] old states h = h
reload_states-Keeps cfg (x ∷ ms) old states h = reload_states-Keeps cfg ms old _ λ m s e.
    elim (Bool-cases (str_eq x.name m)) [
      | inl same ↦
          subst (λ k. Keeps (old k) s) ((eq_iff x.name m).0 same)
            (reloaded-Keeps (old x.name) x.name (threshold_of cfg x) s (ground (arith, e, same)))
      | inr other ↦ h m s (ground (arith, e, other))
    ]

-- If no incident is open for a monitor that the hub does not know, a reload of the configuration,
-- whether the file loads or not, keeps the states and the incident table in agreement.
pub reload_config-Consistent :
    (loaded : Loaded) (h : Hub)
    → Consistent h
    → ((m : String) → h.monitor_states m ≡ none → open_count m h.store.tables.incidents ≡ 0)
    → Consistent (reload_config loaded h)
unfolding reload_config
reload_config-Consistent (err e) h c none_open = c
reload_config-Consistent (ok cfg) h c none_open = record {
  never_fails = c.never_fails;
  ids = c.ids;
  counts = λ m s known.
      count_kept (h.monitor_states m) s (open_count m h.store.tables.incidents)
        (reload_states-Keeps cfg cfg.monitors h.monitor_states empty_map
          (λ j t absent. absurd (ground (arith, absent))) m s known)
        (none_open m) (c.counts m);
}

initial_states-up :
    (cfg : Config) (ms : List Monitor) (states : Map MonitorState)
    → ((m : String) (s : MonitorState) → states m ≡ some s → s.status ≡ up)
    → (m : String) (s : MonitorState) → initial_states cfg ms states m ≡ some s
    → s.status ≡ up
unfolding initial_states new_monitor_state
initial_states-up cfg [] states h = h
initial_states-up cfg (x ∷ ms) states h = initial_states-up cfg ms _ λ m s e.
    elim (Bool-cases (str_eq x.name m)) [
      | inl same ↦ ground (arith, e, same)
      | inr other ↦ h m s (ground (arith, e, other))
    ]

new_hub_up :
    (cfg : Config) (s : Store) (m : String) (t : MonitorState)
    → (new_hub cfg s).monitor_states m ≡ some t
    → t.status ≡ up
unfolding new_hub
new_hub_up cfg s m t known =
    initial_states-up cfg cfg.monitors empty_map (λ j u absent. absurd (ground (arith, absent))) m t
      known

new_hub-stale : (cfg : Config) (s : Store) (m : String) → is_stale (new_hub cfg s) m ≡ true
unfolding is_stale new_hub
new_hub-stale cfg s m = elim (Option-cases (initial_states cfg cfg.monitors empty_map m)) [
  | inl unknown ↦ ground (arith, unknown)
  | inr (t, known) ↦ ground (arith, known, new_hub_up cfg s m t known)
]

initial_states-keeps :
    (cfg : Config) (ms : List Monitor) (states : Map MonitorState) (j : String) (t : MonitorState)
    → states j ≡ some t
    → (t' : MonitorState) × (initial_states cfg ms states j ≡ some t')
unfolding initial_states
initial_states-keeps cfg [] states j t e = (t, e)
initial_states-keeps cfg (x ∷ ms) states j t e = elim (Bool-cases (str_eq x.name j)) [
  | inl same ↦
      initial_states-keeps cfg ms _ j (new_monitor_state x.name (threshold_of cfg x)) (rw same refl)
  | inr other ↦ initial_states-keeps cfg ms _ j t (rw other e)
]

-- The monitor has a state, which is UP.
abbrev pub IsUpIn : Map MonitorState → Monitor → Type 0
IsUpIn states m = (t : MonitorState) × (states m.name ≡ some t) × (t.status ≡ up)

initial_states-IsUpIn :
    (cfg : Config) (ms : List Monitor) (states : Map MonitorState)
    → ((m : String) (s : MonitorState) → states m ≡ some s → s.status ≡ up)
    → All (IsUpIn (initial_states cfg ms states)) ms
unfolding initial_states
initial_states-IsUpIn cfg [] states h = tt
initial_states-IsUpIn cfg (x ∷ ms) states h =
    let first = new_monitor_state x.name (threshold_of cfg x) in
    let states' = insert states x.name first in
    let (t, known) =
      initial_states-keeps cfg ms states' x.name first (ground (arith, eq_iff x.name x.name)) in
    let first_up : (m : String) (s : MonitorState) → states' m ≡ some s → s.status ≡ up =
      λ m s e. initial_states-up cfg (x ∷ []) states h m s (unfold initial_states in e) in
    (
      (t, known, initial_states-up cfg ms states' first_up x.name t known),
      initial_states-IsUpIn cfg ms states' first_up,
    )

new_hub-IsUpIn :
    (cfg : Config) (s : Store) → All (IsUpIn (new_hub cfg s).monitor_states) cfg.monitors
unfolding new_hub
new_hub-IsUpIn cfg s =
    initial_states-IsUpIn cfg cfg.monitors empty_map (λ j u absent. absurd (ground (arith, absent)))

-- With a store whose statements do not fail and whose incidents have distinct ids, the hub that New
-- builds, once it has resolved the stale incidents of earlier runs, agrees with its incident table:
-- each monitor of the configuration has a state, which is UP, no incident of any name is open, and
-- the ids stay distinct.
pub start-Consistent :
    (cfg : Config) (s : Store) (now : ℕ)
    → NeverFails s
    → Below (fresh_id s.tables.incidents) s.tables.incidents
    → let h = resolve_stale_incidents now (new_hub cfg s) in
      Consistent h
      × All (IsUpIn h.monitor_states) cfg.monitors
      × ((j : String) → open_count j h.store.tables.incidents ≡ 0)
start-Consistent cfg s now fine b =
    let h = new_hub cfg s in
    let (closed, same) =
      resolve_stale-Closed h now (fresh_id s.tables.incidents) (unfold new_hub in fine)
        (new_hub-stale cfg s) (unfold new_hub in b) in
    let none_open = λ (j : String). open_count-closed j _ closed.shut in
    (
      record {
        never_fails = closed.fine;
        ids = Below-fresh_id _ _ closed.below;
        counts = λ m t known.
            let is_up : t.status ≡ up = new_hub_up cfg s m t (rw same at known) in
            none_open m ∙ rw is_up refl;
      },
      rw same (new_hub-IsUpIn cfg s),
      none_open,
    )
