-- ===== src/Agent/Collectors/Disk/Rates.antt =====
-- internal/agent/collect_disk.go: the rates of a device from two collections.
use whatsupp.Base.{
  ℕ, ◌-◌, ◌<◌, ◌≡◌, refl, subst, String, true, false, List, [], ◌∷◌, ◌++◌, Option, some, arith, ltb,
  Map, Listed, Listed-left, Listed-right, Bool-cases, Option-cases, inl, inr,
}
use whatsupp.Agent.Buffer.{Metric}
use whatsupp.Agent.Collectors.{Floats, has_prefix}
use whatsupp.Agent.Collectors.Disk.{
  PartitionStat, UsageStat, DiskCounters, DiskCollector, mount_metrics, device_rates, io_metrics,
  as_map, since_last, collect_disk,
}

later_time : (a b : ℕ) → a < b → ltb a b ≡ true
later_time a b h = ground (arith, h)

module _ {V : Type 0} (f : Floats V) where
  io_metrics-found :
      (prev : Map DiskCounters) (elapsed : ℕ) (name : String) (p c : DiskCounters)
      (io : List (String × DiskCounters))
      → prev name ≡ some p
      → has_prefix name "loop" ≡ false
      → io_metrics f prev elapsed ((name, c) ∷ io)
        ≡ device_rates f name p c elapsed ++ io_metrics f prev elapsed io
  unfolding io_metrics
  io_metrics-found prev elapsed name p c io known real = rw (real, known) refl

  io_metrics-Listed :
      (prev : Map DiskCounters) (elapsed : ℕ) (name : String) (p c : DiskCounters) (m : Metric V)
      (io : List (String × DiskCounters))
      → prev name ≡ some p
      → has_prefix name "loop" ≡ false
      → Listed (name, c) io
      → Listed m (device_rates f name p c elapsed)
      → Listed m (io_metrics f prev elapsed io)
  unfolding io_metrics
  io_metrics-Listed prev elapsed name p c m [] known real h sent = absurd h
  io_metrics-Listed prev elapsed name p c m ((n, k) ∷ io) known real (inl same) sent =
      subst (λ e. Listed m (io_metrics f prev elapsed (e ∷ io))) same
        (rw (io_metrics-found prev elapsed name p c io known real)
          (Listed-left m (device_rates f name p c elapsed) (io_metrics f prev elapsed io) sent))
  io_metrics-Listed prev elapsed name p c m ((n, k) ∷ io) known real (inr h) sent =
      let later = io_metrics-Listed prev elapsed name p c m io known real h sent in
      elim (Bool-cases (has_prefix n "loop")) [
        | inl loop ↦ rw loop later
        | inr device ↦ elim (Option-cases (prev n)) [
          | inl new ↦ rw (device, new) later
          | inr (q, old) ↦
              rw (device, old)
                (Listed-right m (device_rates f n q k elapsed) (io_metrics f prev elapsed io) later)
        ]
      ]

  -- Two collections one after the other, whose counters can be read and in which a device stands that
  -- is no loop device: among the metrics of the later one are the four rates of the device, from the
  -- difference of its counters and the time between the collections.
  collect_disk-rates :
      (ps ps' : List PartitionStat) (usage usage' : String → Option (UsageStat V))
      (io io' : List (String × DiskCounters)) (time now : ℕ) (d : DiskCollector) (name : String)
      (p c : DiskCounters) (m : Metric V)
      → time < now
      → as_map f io name ≡ some p
      → Listed (name, c) io'
      → has_prefix name "loop" ≡ false
      → Listed m (device_rates f name p c (now - time))
      → let first = (collect_disk f (some ps) usage (some io) time d).1 in
        (ms : List (Metric V)) × ((collect_disk f (some ps') usage' (some io') now first).0
          ≡ some ms)
        × Listed m ms
  unfolding collect_disk
  collect_disk-rates ps ps' usage usage' io io' time now d name p c m later known there real sent =
      (
        mount_metrics f usage' ps' ++ since_last f (some (as_map f io, time)) now io',
        refl,
        Listed-right m (mount_metrics f usage' ps')
            (since_last f (some (as_map f io, time)) now io')
            (rw (later_time time now later)
              (io_metrics-Listed (as_map f io) (now - time) name p c m io' known real there sent)),
      )
