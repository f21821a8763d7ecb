-- ===== src/Config/Defaults.antt =====
-- internal/config/config.go: the defaults.
use whatsupp.Base.{ℤ, pos, ◌≡◌, refl, String, List, [], ◌∷◌, arith, map}
use whatsupp.Config.{
  Monitor, SecurityTarget, ThresholdsConfig, Config, default_monitor, default_target,
  default_thresholds, apply_defaults, or_days, or_default, or_text,
}

map_twice {ℓ} :
    {A : Type ℓ} (f : A → A) (xs : List A) → ((x : A) → f (f x) ≡ f x) → map f (map f xs) ≡ map f xs
map_twice f [] h = refl
map_twice f (x ∷ xs) h = cc (h x, map_twice f xs h)

or_default_twice : (n d : ℤ) → or_default (or_default n d) d ≡ or_default n d
or_default_twice n d = ground arith

default_monitor_twice :
    (d : ℤ) (m : Monitor) → default_monitor d (default_monitor d m) ≡ default_monitor d m
unfolding default_monitor
default_monitor_twice d m = ground arith

default_target_twice : (t : SecurityTarget) → default_target (default_target t) ≡ default_target t
unfolding default_target
default_target_twice t = ground arith

or_days_twice : (days : List ℤ) → or_days (or_days days) ≡ or_days days
or_days_twice [] = refl
or_days_twice (d ∷ days) = refl

or_text_twice : (s d : String) → or_text (or_text s d) d ≡ or_text s d
or_text_twice s d = ground arith

default_thresholds_twice :
    (t : ThresholdsConfig) → default_thresholds (default_thresholds t) ≡ default_thresholds t
unfolding default_thresholds
default_thresholds_twice t = ground (arith, or_days_twice t.ssl_expiry_days)

-- Filling in the defaults a second time changes nothing.
pub apply_defaults_idem : (cfg : Config) → apply_defaults (apply_defaults cfg) ≡ apply_defaults cfg
unfolding apply_defaults
apply_defaults_idem cfg =
    let threshold = or_default cfg.default_failure_threshold (pos 3) in
    let kept = or_default_twice cfg.default_failure_threshold (pos 3) in
    rw kept (
      cc (
        map_twice (default_monitor threshold) cfg.monitors (default_monitor_twice threshold),
        map_twice default_target cfg.targets default_target_twice,
        default_thresholds_twice cfg.thresholds,
        or_text_twice cfg.server.listen ":8080",
        or_text_twice cfg.server.db_path "/data/whatsupp.db",
      ))
