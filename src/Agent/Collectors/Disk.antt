-- ===== src/Agent/Collectors/Disk.antt =====
-- internal/agent/collect_disk.go: the usage of the file systems, and the rates of the devices. The
-- counters of the devices are in the order of Go's loop over their map, each name once.
pub mod Rates
use whatsupp.Base.{
  ℕ, ◌-◌, String, Bool, false, ◌||◌, List, [], ◌∷◌, ◌++◌, Option, none, some, ltb, str_eq,
  if◌then◌else◌, Map, empty_map, insert,
}
use whatsupp.Agent.Buffer.{Metric}
use whatsupp.Agent.Collectors.{Floats, sub_uint64, metric_name, has_prefix}

pub record PartitionStat : Type 0 where
  pub mountpoint : String
  pub fstype : String

pub record UsageStat (V : Type 0) : Type 0 where
  pub used_percent : V
  pub total_bytes : ℕ
  pub used_bytes : ℕ
  pub free_bytes : ℕ

pub record DiskCounters : Type 0 where
  pub read_count : ℕ
  pub write_count : ℕ
  pub read_bytes : ℕ
  pub write_bytes : ℕ

-- The counters of the last collection and its time.
pub record DiskCollector : Type 0 where
  pub prev : Option (Map DiskCounters × ℕ)

unfoldable pub new_disk_collector : DiskCollector
new_disk_collector = record { prev = none }

abbrev pub virtual_fs : List String
virtual_fs =
    "tmpfs" ∷ "devtmpfs" ∷ "sysfs" ∷ "proc" ∷ "devpts" ∷ "securityfs" ∷ "cgroup" ∷ "cgroup2"
    ∷ "pstore" ∷ "efivarfs" ∷ "bpf" ∷ "tracefs" ∷ "debugfs" ∷ "hugetlbfs" ∷ "mqueue" ∷ "fusectl"
    ∷ "overlay" ∷ "nsfs" ∷ "fuse.lxcfs" ∷ "squashfs" ∷ []

abbrev pub mem_string : String → List String → Bool
mem_string s [] = false
mem_string s (t ∷ ts) = str_eq s t || mem_string s ts

unfoldable pub skip_mount : String → Bool
unfolding has_prefix
skip_mount mountpoint =
    has_prefix mountpoint "/snap/"
    || has_prefix mountpoint "/boot/efi"
    || has_prefix mountpoint "/boot/firmware"

module _ {V : Type 0} (f : Floats V) where
  abbrev pub disk_metric : String → String → V → Metric V
  disk_metric mount name value = record { name = metric_name "disk" mount name; value = value }

  -- `usage_of` is none for a file system whose usage cannot be read.
  unfoldable pub mount_metrics :
      (String → Option (UsageStat V)) → List PartitionStat → List (Metric V)
  unfolding skip_mount
  mount_metrics usage_of [] = []
  mount_metrics usage_of (p ∷ ps) =
      let rest = mount_metrics usage_of ps in
      if mem_string p.fstype virtual_fs || skip_mount p.mountpoint
      then rest
      else (elim (usage_of p.mountpoint) [
        | none ↦ rest
        | some usage ↦
            disk_metric p.mountpoint "usage_pct" usage.used_percent
            ∷ disk_metric p.mountpoint "total_bytes" (f.of_uint usage.total_bytes)
            ∷ disk_metric p.mountpoint "used_bytes" (f.of_uint usage.used_bytes)
            ∷ disk_metric p.mountpoint "avail_bytes" (f.of_uint usage.free_bytes)
            ∷ rest
      ])

  abbrev pub device_rates : String → DiskCounters → DiskCounters → ℕ → List (Metric V)
  device_rates name p c elapsed =
      disk_metric name "read_iops" (f.per_second (sub_uint64 c.read_count p.read_count) elapsed)
      ∷ disk_metric name "write_iops"
          (f.per_second (sub_uint64 c.write_count p.write_count) elapsed)
      ∷ disk_metric name "read_bytes" (f.per_second (sub_uint64 c.read_bytes p.read_bytes) elapsed)
      ∷ disk_metric name "write_bytes"
          (f.per_second (sub_uint64 c.write_bytes p.write_bytes) elapsed)
      ∷ []

  unfoldable pub io_metrics : Map DiskCounters → ℕ → List (String × DiskCounters) → List (Metric V)
  unfolding has_prefix
  io_metrics prev elapsed [] = []
  io_metrics prev elapsed ((name, c) ∷ io) =
      let rest = io_metrics prev elapsed io in
      if has_prefix name "loop"
      then rest
      else (elim (prev name) [ none ↦ rest | some p ↦ device_rates name p c elapsed ++ rest ])

  unfoldable pub as_map : List (String × DiskCounters) → Map DiskCounters
  as_map [] = empty_map
  as_map ((name, c) ∷ io) = insert (as_map io) name c

  abbrev pub since_last :
      Option (Map DiskCounters × ℕ) → ℕ → List (String × DiskCounters) → List (Metric V)
  since_last none now io = []
  since_last (some (prev, time)) now io =
      if ltb time now then io_metrics prev (now - time) io else []

  -- None for an error of the partitions; `io` is none if the counters cannot be read.
  unfoldable pub collect_disk :
      Option (List PartitionStat)
      → (String → Option (UsageStat V))
      → Option (List (String × DiskCounters))
      → ℕ
      → DiskCollector
      → Option (List (Metric V)) × DiskCollector
  unfolding mount_metrics io_metrics as_map
  collect_disk none usage_of io now d = (none, d)
  collect_disk (some ps) usage_of none now d = (some (mount_metrics usage_of ps), d)
  collect_disk (some ps) usage_of (some io) now d = (
    some (mount_metrics usage_of ps ++ since_last d.prev now io),
    record { prev = some (as_map io, now) },
  )
