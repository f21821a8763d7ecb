-- ===== src/Agent/Collectors/Machine.antt =====
-- internal/agent/collect_cpu.go, collect_mem.go, collect_battery.go: what gopsutil and sysfs give, in
-- metrics. A reading that fails is none.
use Prim.Native.String.{◌++◌ as append}
use whatsupp.Base.{
  ℕ, suc, String, Bool, true, false, ◌||◌, List, [], ◌∷◌, ◌++◌, Option, none, some, str_eq,
  if◌then◌else◌,
}
use whatsupp.Agent.Buffer.{Metric}
use whatsupp.Agent.Collectors.{Floats}

pub record LoadAverage (V : Type 0) : Type 0 where
  pub load1 : V
  pub load5 : V
  pub load15 : V

pub record MemoryStat (V : Type 0) : Type 0 where
  pub used_bytes : ℕ
  pub available_bytes : ℕ
  pub total_bytes : ℕ
  pub used_percent : V

-- The text of a battery's capacity, as a number if it is one, and the trimmed text of its status.
pub record Battery (V : Type 0) : Type 0 where
  pub capacity : Option V
  pub status : Option String

pub record CpuCollector : Type 0 where
  pub first_per_core : Bool

unfoldable pub new_cpu_collector : CpuCollector
new_cpu_collector = record { first_per_core = true }

module _ {V : Type 0} where
  abbrev pub named : String → String → V → Metric V
  named kind name value = record { name = append kind (append "." name); value = value }

  -- `core_name` is the text of the name for a core.
  unfoldable pub core_metrics : (ℕ → String) → ℕ → List V → List (Metric V)
  core_metrics core_name i [] = []
  core_metrics core_name i (pct ∷ pcts) =
      named "cpu" (core_name i) pct ∷ core_metrics core_name (suc i) pcts

  abbrev pub overall : Option (List V) → List (Metric V)
  overall none = []
  overall (some []) = []
  overall (some (pct ∷ pcts)) = named "cpu" "usage_pct" pct ∷ []

  abbrev pub load_metrics : Option (LoadAverage V) → List (Metric V)
  load_metrics none = []
  load_metrics (some avg) =
      named "cpu" "load_1m" avg.load1
      ∷ named "cpu" "load_5m" avg.load5
      ∷ named "cpu" "load_15m" avg.load15
      ∷ []

  unfoldable pub collect_cpu :
      (ℕ → String)
      → Option (List V)
      → Option (LoadAverage V)
      → Option (List V)
      → CpuCollector
      → List (Metric V) × CpuCollector
  unfolding core_metrics
  collect_cpu core_name pcts avg none c = (overall pcts ++ load_metrics avg, c)
  collect_cpu core_name pcts avg (some core_pcts) c =
      if c.first_per_core
      then (overall pcts ++ load_metrics avg, record { first_per_core = false })
      else (overall pcts ++ (load_metrics avg ++ core_metrics core_name 0 core_pcts), c)

  -- The loop ends at the first battery whose capacity and status can be read.
  unfoldable pub collect_battery : Floats V → List (Battery V) → List (Metric V)
  collect_battery f [] = []
  collect_battery f (b ∷ bs) =
      let rest = collect_battery f bs in
      elim b.capacity [
        | none ↦ rest
        | some pct ↦ named "battery" "charge_pct" pct ∷ (elim b.status [
          | none ↦ rest
          | some status ↦
              named "battery" "charging" (
                if str_eq status "Charging" || str_eq status "Full"
                then f.one_value
                else f.zero_value)
              ∷ []
        ])
      ]

  -- None for an error of the memory; the used and total bytes of the swap.
  unfoldable pub collect_mem :
      Floats V → Option (MemoryStat V) → Option (ℕ × ℕ) → Option (List (Metric V))
  collect_mem f none swap = none
  collect_mem f (some v) swap = some (
      named "mem" "used_bytes" (f.of_uint v.used_bytes)
      ∷ named "mem" "available_bytes" (f.of_uint v.available_bytes)
      ∷ named "mem" "total_bytes" (f.of_uint v.total_bytes)
      ∷ named "mem" "usage_pct" v.used_percent
      ∷ (elim swap [
        | none ↦ []
        | some (used, all) ↦
            named "mem" "swap_used_bytes" (f.of_uint used)
            ∷ named "mem" "swap_total_bytes" (f.of_uint all)
            ∷ []
      ]))
