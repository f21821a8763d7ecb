-- ===== src/Agent/Collectors/Net.antt =====
-- internal/agent/collect_net.go: the counters of the network interfaces, and their rates.
pub mod Rates
use whatsupp.Base.{
  ℕ, ◌-◌, String, Bool, true, false, ◌||◌, List, [], ◌∷◌, ◌++◌, Option, none, some, ltb, str_eq,
  if◌then◌else◌, Map, empty_map, insert,
}
use whatsupp.Agent.Buffer.{Metric}
use whatsupp.Agent.Collectors.{Floats, sub_uint64, metric_name, has_prefix}

pub record IoCounters : Type 0 where
  pub name : String
  pub bytes_recv : ℕ
  pub bytes_sent : ℕ
  pub errin : ℕ
  pub errout : ℕ
  pub dropin : ℕ
  pub dropout : ℕ

-- The counters of the last collection and its time.
pub record NetCollector : Type 0 where
  pub prev : Option (Map IoCounters × ℕ)

unfoldable pub new_net_collector : NetCollector
new_net_collector = record { prev = none }

unfoldable pub is_filtered_interface : String → Bool
unfolding has_prefix
is_filtered_interface name =
    str_eq name "lo" || has_prefix name "veth" || has_prefix name "docker" || has_prefix name "br-"

module _ {V : Type 0} (f : Floats V) where
  abbrev pub net_metric : IoCounters → String → V → Metric V
  net_metric c name value = record { name = metric_name "net" c.name name; value = value }

  unfoldable pub counter_metrics : IoCounters → List (Metric V)
  counter_metrics c =
      net_metric c "rx_bytes" (f.of_uint c.bytes_recv)
      ∷ net_metric c "tx_bytes" (f.of_uint c.bytes_sent)
      ∷ net_metric c "rx_errors" (f.of_uint c.errin)
      ∷ net_metric c "tx_errors" (f.of_uint c.errout)
      ∷ net_metric c "rx_drops" (f.of_uint c.dropin)
      ∷ net_metric c "tx_drops" (f.of_uint c.dropout)
      ∷ []

  abbrev pub rates_since : IoCounters → IoCounters → ℕ → List (Metric V)
  rates_since p c elapsed =
      net_metric c "rx_bytes_sec" (f.per_second (sub_uint64 c.bytes_recv p.bytes_recv) elapsed)
      ∷ net_metric c "tx_bytes_sec" (f.per_second (sub_uint64 c.bytes_sent p.bytes_sent) elapsed)
      ∷ []

  unfoldable pub rate_metrics : Option (Map IoCounters × ℕ) → ℕ → IoCounters → List (Metric V)
  rate_metrics none now c = []
  rate_metrics (some (io, time)) now c = elim (io c.name) [
    | none ↦ []
    | some p ↦ if ltb time now then rates_since p c (now - time) else []
  ]

  -- The loop over the counters, with the map of the current ones.
  unfoldable pub collect_interfaces :
      Option (Map IoCounters × ℕ)
      → ℕ
      → List IoCounters
      → Map IoCounters
      → List (Metric V) × Map IoCounters
  collect_interfaces prev now [] current = ([], current)
  collect_interfaces prev now (c ∷ cs) current = elim (is_filtered_interface c.name) [
    | true ↦ collect_interfaces prev now cs current
    | false ↦
        let (ms, last) = collect_interfaces prev now cs (insert current c.name c) in
        (counter_metrics c ++ (rate_metrics prev now c ++ ms), last)
  ]

  -- None if the counters cannot be read.
  unfoldable pub collect_net :
      Option (List IoCounters) → ℕ → NetCollector → Option (List (Metric V)) × NetCollector
  unfolding collect_interfaces
  collect_net none now n = (none, n)
  collect_net (some cs) now n =
      let (ms, current) = collect_interfaces n.prev now cs empty_map in
      (some ms, record { prev = some (current, now) })
