-- ===== src/Config/Validation.antt =====
-- internal/config/config.go: what a loaded configuration satisfies.
use whatsupp.Base.{
  ◌≡◌, ◌≢◌, refl, subst, true, false, ◌⊎◌, inl, inr, List, [], ◌∷◌, none, arith, str_eq, eq_iff,
  map, Option-cases, ℤ, pos, eq_int,
}
use whatsupp.Config.{
  Monitor, Config, ok, default_monitor, default_interval, validate_monitor, validate,
  apply_defaults, load, or_default,
}

-- A monitor whose type has what it needs.
abbrev pub HasTarget : Monitor → Type 0
HasTarget m =
    ((m.type ≡ "http") × (m.url ≢ ""))
    ⊎ (((m.type ≡ "ping") ⊎ (m.type ≡ "dns")) × (m.host ≢ ""))
    ⊎ ((m.type ≡ "port") × (m.host ≢ "") × (m.port ≢ pos 0))

-- A setting after the defaults: the given one, unless that is zero and the default stands for it.
abbrev pub IsSetting : ℤ → ℤ → ℤ → Type 0
IsSetting given default value =
    ((given ≢ pos 0) × (value ≡ given)) ⊎ ((given ≡ pos 0) × (value ≡ default))

-- What the loaded monitor is of the monitor in the file: the same but for the two settings.
pub record IsCompletion (threshold : ℤ) (given m : Monitor) : Type 0 where
  pub named : m.name ≢ ""
  pub target : HasTarget m
  pub failure_threshold : IsSetting given.failure_threshold threshold m.failure_threshold
  pub threshold_set : m.failure_threshold ≢ pos 0
  pub interval : IsSetting given.interval (default_interval m.type) m.interval
  pub interval_set : (m.type ≢ "dns") → m.interval ≢ pos 0
  pub same : m ≡ record given { failure_threshold = m.failure_threshold; interval = m.interval }

-- The monitors of the file and the loaded ones, in their order.
abbrev pub Completions : ℤ → List Monitor → List Monitor → Type 0
Completions threshold [] [] = Unit
Completions threshold [] (m ∷ ms) = ⊥
Completions threshold (g ∷ gs) [] = ⊥
Completions threshold (g ∷ gs) (m ∷ ms) = IsCompletion threshold g m × Completions threshold gs ms

eq_int-cases : (a b : ℤ) → ((a ≡ b) × (eq_int a b ≡ true)) ⊎ ((a ≢ b) × (eq_int a b ≡ false))
eq_int-cases a b = ground arith

or_default-IsSetting : (given default : ℤ) → IsSetting given default (or_default given default)
or_default-IsSetting given default = ground (arith, eq_int-cases given (pos 0))

or_default-set : (given default : ℤ) → default ≢ pos 0 → or_default given default ≢ pos 0
or_default-set given default h = ground (arith, h, eq_int-cases given (pos 0))

module _ (d : ℤ) (m : Monitor) (set : d ≢ pos 0) where
  default-IsCompletion :
      validate_monitor (default_monitor d m) ≡ none → IsCompletion d m (default_monitor d m)
  unfolding default_monitor validate_monitor default_interval
  default-IsCompletion v = record {
    named = ground (arith, eq_iff m.name "");
    target = ground (
      arith,
      eq_iff m.type "http",
      eq_iff m.type "ping",
      eq_iff m.type "port",
      eq_iff m.type "dns",
      eq_iff m.url "",
      eq_iff m.host "",
      eq_int-cases m.port (pos 0),
    );
    failure_threshold = or_default-IsSetting m.failure_threshold d;
    threshold_set = or_default-set m.failure_threshold d set;
    interval = or_default-IsSetting m.interval (default_interval m.type);
    interval_set = λ other. or_default-set m.interval (default_interval m.type) (
        ground (
          arith,
          other,
          eq_iff m.type "http",
          eq_iff m.type "ping",
          eq_iff m.type "port",
          eq_iff m.type "dns",
        ));
    same = refl;
  }

validate-Completions :
    (d : ℤ) (ms : List Monitor)
    → d ≢ pos 0
    → validate (map (default_monitor d) ms) ≡ none
    → Completions d ms (map (default_monitor d) ms)
unfolding validate
validate-Completions d [] h v = tt
validate-Completions d (m ∷ ms) h v = elim (Option-cases (validate_monitor (default_monitor d m))) [
  | inl fine ↦
      (default-IsCompletion d m h fine, validate-Completions d ms h (rw (fine, validate) at v))
  | inr (e, bad) ↦ absurd (ground (arith, bad))
]

load-cases :
    (cfg loaded : Config)
    → load cfg ≡ ok loaded
    → (validate (apply_defaults cfg).monitors ≡ none) × (apply_defaults cfg ≡ loaded)
unfolding load
load-cases cfg loaded e = elim (Option-cases (validate (apply_defaults cfg).monitors)) [
  | inl fine ↦ (fine, ground (arith, fine))
  | inr (x, bad) ↦ absurd (ground (arith, bad))
]

-- The monitors of a configuration that loads are those of the file, in their order, each with a
-- name and what its type needs (a URL, a host, or a host and a port), and the same but for two
-- settings: the threshold and the interval are the given ones, negative ones too, unless they are
-- zero; a zero is replaced by the default threshold of the file, or 3 without one, and by the
-- interval of the type. Neither is zero then, but for the interval of a dns monitor.
pub load-Completions :
    (cfg loaded : Config)
    → load cfg ≡ ok loaded
    → Completions (or_default cfg.default_failure_threshold (pos 3)) cfg.monitors loaded.monitors
load-Completions cfg loaded e =
    let (fine, same) = load-cases cfg loaded e in
    let threshold = or_default cfg.default_failure_threshold (pos 3) in
    let set = or_default-set cfg.default_failure_threshold (pos 3) (ground arith) in
    subst (λ (c : Config). Completions threshold cfg.monitors c.monitors) same
      (unfold apply_defaults in validate-Completions threshold cfg.monitors set fine)

-- A dns monitor with a name and a host, and no interval in the file, loads with the interval 0.
pub dns_interval_stays_zero :
    (d : ℤ) (m : Monitor)
    → m.type ≡ "dns"
    → m.name ≢ ""
    → m.host ≢ ""
    → m.interval ≡ pos 0
    → (validate_monitor (default_monitor d m) ≡ none) × ((default_monitor d m).interval ≡ pos 0)
unfolding default_monitor validate_monitor
dns_interval_stays_zero d m t n h i =
    let not_http : str_eq m.type "http" ≡ false = rw t refl in
    let not_ping : str_eq m.type "ping" ≡ false = rw t refl in
    let not_port : str_eq m.type "port" ≡ false = rw t refl in
    let is_dns : str_eq m.type "dns" ≡ true = rw t refl in
    ground (arith, eq_iff m.name "", eq_iff m.host "")
