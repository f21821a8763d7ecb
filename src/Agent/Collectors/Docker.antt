-- ===== src/Agent/Collectors/Docker.antt =====
-- internal/agent/collect_docker.go: the metrics of the containers. The maps of the statistics are
-- lists, of which only sums are taken, or functions; strings.ToLower is a parameter.
pub mod Rates
pub mod Usage
use Prim.Native.String.{String}
use Prim.Native.Char.{code}
use whatsupp.Base.{
  ℕ, ◌+◌, ◌-◌, ◌%◌, Bool, true, false, ◌&&◌, ◌||◌, List, [], ◌∷◌, ◌++◌, Option, none, some, ltb,
  leb, ◌==◌, str_eq, if◌then◌else◌, Map, empty_map, insert,
}
use whatsupp.Agent.Buffer.{Metric}
use whatsupp.Agent.Collectors.{Floats, two_64, sub_uint64, metric_name}

pub record DockerIoSnapshot : Type 0 where
  pub net_rx : ℕ
  pub net_tx : ℕ
  pub blk_read : ℕ
  pub blk_write : ℕ

-- Of types.StatsJSON, what is read: the bytes of each interface, the operations on devices.
pub record DockerStats : Type 0 where
  pub networks : List (ℕ × ℕ)
  pub io_service_bytes : List (String × ℕ)
  pub memory_usage : ℕ
  pub memory_limit : ℕ
  pub memory_stats : Map ℕ
  pub total_usage : ℕ
  pub pre_total_usage : ℕ
  pub system_usage : ℕ
  pub pre_system_usage : ℕ
  pub online_cpus : ℕ
  pub percpu_count : ℕ

-- `stats` is none if they cannot be requested, read or parsed.
pub record Container : Type 0 where
  pub names : List String
  pub state : String
  pub stats : Option DockerStats

pub record DockerCollector : Type 0 where
  pub has_client : Bool
  pub prev : Option (Map DockerIoSnapshot × ℕ)

unfoldable pub new_docker_collector : DockerCollector
new_docker_collector = record { has_client = false; prev = none }

-- TrimPrefix by "/"
unfoldable pub trim_slash : String → String
trim_slash String.[] = String.[]
trim_slash (String.◌∷◌ c s) = if code c == 47 then s else String.◌∷◌ c s

unfoldable pub container_name : List String → String
unfolding trim_slash
container_name [] = "unknown"
container_name (name ∷ names) = trim_slash name

unfoldable pub sum_networks : List (ℕ × ℕ) → ℕ × ℕ
sum_networks [] = (0, 0)
sum_networks ((rx, tx) ∷ ns) =
    let (rxs, txs) = sum_networks ns in ((rx + rxs) % two_64, (tx + txs) % two_64)

unfoldable pub sum_blkio : (String → String) → List (String × ℕ) → ℕ × ℕ
sum_blkio to_lower [] = (0, 0)
sum_blkio to_lower ((op, n) ∷ es) =
    let (reads, writes) = sum_blkio to_lower es in
    if str_eq (to_lower op) "read"
    then ((n + reads) % two_64, writes)
    else if str_eq (to_lower op) "write"
    then (reads, (n + writes) % two_64)
    else (reads, writes)

unfoldable pub snapshot_of : (String → String) → DockerStats → DockerIoSnapshot
unfolding sum_networks sum_blkio
snapshot_of to_lower s = record {
  net_rx = (sum_networks s.networks).0;
  net_tx = (sum_networks s.networks).1;
  blk_read = (sum_blkio to_lower s.io_service_bytes).0;
  blk_write = (sum_blkio to_lower s.io_service_bytes).1;
}

unfoldable pub docker_mem_usage : DockerStats → ℕ
docker_mem_usage s = elim (s.memory_stats "inactive_file") [
  | some v ↦ if leb v s.memory_usage then s.memory_usage - v else s.memory_usage
  | none ↦ elim (s.memory_stats "cache") [
    | some v ↦ if leb v s.memory_usage then s.memory_usage - v else s.memory_usage
    | none ↦ s.memory_usage
  ]
]

unfoldable pub num_cpus : DockerStats → ℕ
num_cpus s =
    if s.online_cpus == 0
    then (if s.percpu_count == 0 then 1 else s.percpu_count)
    else s.online_cpus

module _ {V : Type 0} (f : Floats V) (to_lower : String → String) where
  unfoldable pub docker_cpu_percent : DockerStats → V
  unfolding num_cpus
  docker_cpu_percent s =
      let cpu_delta = sub_uint64 s.total_usage s.pre_total_usage in
      let system_delta = sub_uint64 s.system_usage s.pre_system_usage in
      if leb system_delta 0 || ltb cpu_delta 0
      then f.zero_value
      else f.cpu_percent cpu_delta system_delta (num_cpus s)

  abbrev pub docker_metric : String → String → V → Metric V
  docker_metric container name value = record {
    name = metric_name "docker" container name;
    value = value;
  }

  unfoldable pub usage_metrics : String → DockerStats → List (Metric V)
  unfolding docker_cpu_percent docker_mem_usage snapshot_of
  usage_metrics name s =
      let usage = docker_mem_usage s in
      let snap = snapshot_of to_lower s in
      docker_metric name "cpu_pct" (docker_cpu_percent s)
      ∷ docker_metric name "mem_bytes" (f.of_uint usage)
      ∷ docker_metric name "mem_limit_bytes" (f.of_uint s.memory_limit)
      ∷ docker_metric name "mem_usage_pct"
          (if ltb 0 s.memory_limit then f.percent usage s.memory_limit else f.zero_value)
      ∷ docker_metric name "net_rx_bytes" (f.of_uint snap.net_rx)
      ∷ docker_metric name "net_tx_bytes" (f.of_uint snap.net_tx)
      ∷ docker_metric name "disk_read_bytes" (f.of_uint snap.blk_read)
      ∷ docker_metric name "disk_write_bytes" (f.of_uint snap.blk_write)
      ∷ []

  abbrev pub io_rates : String → DockerIoSnapshot → DockerIoSnapshot → ℕ → List (Metric V)
  io_rates name p c elapsed =
      docker_metric name "net_rx_bytes_sec" (f.per_second (sub_uint64 c.net_rx p.net_rx) elapsed)
      ∷ docker_metric name "net_tx_bytes_sec" (f.per_second (sub_uint64 c.net_tx p.net_tx) elapsed)
      ∷ docker_metric name "disk_read_bytes_sec"
          (f.per_second (sub_uint64 c.blk_read p.blk_read) elapsed)
      ∷ docker_metric name "disk_write_bytes_sec"
          (f.per_second (sub_uint64 c.blk_write p.blk_write) elapsed)
      ∷ []

  unfoldable pub docker_rates :
      Option (Map DockerIoSnapshot × ℕ) → ℕ → String → DockerIoSnapshot → List (Metric V)
  docker_rates none now name c = []
  docker_rates (some (io, time)) now name c = elim (io name) [
    | none ↦ []
    | some p ↦
        if ltb time now
          && leb p.net_rx c.net_rx
          && leb p.net_tx c.net_tx
          && leb p.blk_read c.blk_read
          && leb p.blk_write c.blk_write
        then io_rates name p c (now - time)
        else []
  ]

  -- The loop over the containers, with the map of the current snapshots.
  unfoldable pub collect_containers :
      Option (Map DockerIoSnapshot × ℕ)
      → ℕ
      → List Container
      → Map DockerIoSnapshot
      → List (Metric V) × Map DockerIoSnapshot
  collect_containers prev now [] current = ([], current)
  collect_containers prev now (c ∷ cs) current =
      let name = container_name c.names in
      elim (str_eq c.state "running") [
        | false ↦
            let (ms, last) = collect_containers prev now cs current in
            (docker_metric name "status" f.zero_value ∷ ms, last)
        | true ↦ elim c.stats [
          | none ↦
              let (ms, last) = collect_containers prev now cs current in
              (docker_metric name "status" f.one_value ∷ ms, last)
          | some s ↦
              let snap = snapshot_of to_lower s in
              let (ms, last) = collect_containers prev now cs (insert current name snap) in
              (
                docker_metric name "status" f.one_value
                    ∷ (usage_metrics name s ++ (docker_rates prev now name snap ++ ms)),
                last,
              )
        ]
      ]

  -- `connects` says whether a client can be made; the containers are none if they cannot be listed,
  -- and then the client is made again at the next call.
  unfoldable pub collect_docker :
      Bool
      → Option (List Container)
      → ℕ
      → DockerCollector
      → Option (List (Metric V)) × DockerCollector
  unfolding collect_containers
  collect_docker connects containers now d =
      if d.has_client || connects
      then (elim containers [
        | none ↦ (none, record d { has_client = false })
        | some cs ↦
            let (ms, current) = collect_containers d.prev now cs empty_map in
            (some ms, record { has_client = true; prev = some (current, now) })
      ])
      else (none, d)
