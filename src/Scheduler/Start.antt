-- ===== src/Scheduler/Start.antt =====
-- internal/hub/scheduler.go, internal/config/config.go: when the scheduler starts.
use whatsupp.Base.{
  ◌≡◌, ◌↔◌, ◌⊎◌, inl, inr, refl, String, Bool, true, List, [], ◌∷◌, none, arith, eq_iff, All,
  Bool-cases, Option-cases, ℤ, pos, leb_ℤ,
}
use whatsupp.Config.{Monitor, Config, ok, load}
use whatsupp.Config.Validation.{Completions, HasTarget, load-Completions}
use whatsupp.Scheduler.{has_checker, register_checkers, start}

-- Some monitor has an interval that is not positive.
abbrev pub HasIdle : List Monitor → Type 0
HasIdle [] = ⊥
HasIdle (m ∷ ms) = (leb_ℤ m.interval (pos 0) ≡ true) ⊎ HasIdle ms

crash-HasIdle :
    (checkers : String → Bool) (ms : List Monitor) → start checkers ms ≡ none → HasIdle ms
unfolding start
crash-HasIdle checkers [] e = absurd (ground (arith, e))
crash-HasIdle checkers (m ∷ ms) e = elim (Bool-cases (checkers m.name)) [
  | inr unregistered ↦ inr (crash-HasIdle checkers ms (rw (unregistered, start) at e))
  | inl registered ↦ elim (Bool-cases (leb_ℤ m.interval (pos 0))) [
    | inl idle ↦ inl idle
    | inr timed ↦ elim (Option-cases (start checkers ms)) [
      | inl crashed ↦ inr (crash-HasIdle checkers ms crashed)
      | inr (ws, started) ↦ absurd (
          let now_started = rw (registered, timed, started, start) at e in
          ground (arith, now_started))
    ]
  ]
]

HasIdle-crash :
    (checkers : String → Bool) (ms : List Monitor)
    → All (λ m. checkers m.name ≡ true) ms
    → HasIdle ms
    → start checkers ms ≡ none
unfolding start
HasIdle-crash checkers [] cs h = absurd h
HasIdle-crash checkers (m ∷ ms) (c, cs) (inl idle) = rw (c, idle, start) refl
HasIdle-crash checkers (m ∷ ms) (c, cs) (inr h) = ground (arith, c, HasIdle-crash checkers ms cs h)

All-registered :
    (m : Monitor) (ms later : List Monitor)
    → All (λ x. register_checkers ms x.name ≡ true) later
    → All (λ x. register_checkers (m ∷ ms) x.name ≡ true) later
unfolding register_checkers
All-registered m ms [] rs = tt
All-registered m ms (x ∷ later) (r, rs) = (ground (arith, r), All-registered m ms later rs)

HasTarget-has_checker : (m : Monitor) → HasTarget m → has_checker m ≡ true
unfolding has_checker
HasTarget-has_checker m (inl (http, u)) = rw http refl
HasTarget-has_checker m (inr (inl (inl ping, h))) = rw ping refl
HasTarget-has_checker m (inr (inl (inr dns, h))) = rw dns refl
HasTarget-has_checker m (inr (inr (port, h, p))) = rw port refl

loaded-registered :
    (d : ℤ) (gs ms : List Monitor)
    → Completions d gs ms
    → All (λ m. register_checkers ms m.name ≡ true) ms
unfolding register_checkers
loaded-registered d [] [] rs = tt
loaded-registered d [] (m ∷ ms) rs = absurd rs
loaded-registered d (g ∷ gs) [] rs = absurd rs
loaded-registered d (g ∷ gs) (m ∷ ms) (r, rs) =
    let checker = HasTarget-has_checker m r.target in
    (
      ground (arith, checker, eq_iff m.name m.name),
      All-registered m ms ms (loaded-registered d gs ms rs),
    )

-- A configuration that loads makes the start of the scheduler panic exactly if it has a monitor
-- whose interval is not positive: a negative one of the file, or that of a dns monitor without one.
loaded_start :
    (cfg loaded : Config)
    → load cfg ≡ ok loaded
    → (start (register_checkers loaded.monitors) loaded.monitors ≡ none) ↔ HasIdle loaded.monitors
loaded_start cfg loaded e = (
  crash-HasIdle (register_checkers loaded.monitors) loaded.monitors,
  HasIdle-crash (register_checkers loaded.monitors) loaded.monitors
      (loaded-registered _ cfg.monitors loaded.monitors (load-Completions cfg loaded e)),
)
