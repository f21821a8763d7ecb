-- ===== src/Examples/Collectors.antt =====
-- internal/agent: two readings of a network interface and of a container, and a sensor.
use whatsupp.Base.{
  ℕ, ◌+◌, ◌≡◌, refl, String, true, ◌&&◌, List, [], ◌∷◌, inl, some, arith, leb, if◌then◌else◌,
  Listed, empty_map,
}
use whatsupp.Agent.Buffer.{Metric}
use whatsupp.Agent.Collectors.{Floats}
use whatsupp.Agent.Collectors.Net.{IoCounters}
use whatsupp.Agent.Collectors.Docker.{
  DockerStats, Container, DockerCollector, new_docker_collector, container_name, snapshot_of,
  docker_rates, collect_docker,
}
use whatsupp.Agent.Collectors.Docker.Rates.{differences, collect_docker-rates}
use whatsupp.Agent.Collectors.Sensors.{sanitize_sensor_name}
use whatsupp.Agent.Collectors.Sensors.Names.{IsSensorName, sanitize_sensor_name-IsSensorName}

-- Floats that are whole numbers.
abbrev whole : Floats ℕ
whole = record {
  zero_value = 0;
  one_value = 1;
  of_uint = λ n. n;
  per_second = λ n elapsed. n;
  percent = λ a b. a;
  cpu_percent = λ a b n. a;
}

abbrev eth : ℕ → ℕ → IoCounters
eth recv sent = record {
  name = "eth0";
  bytes_recv = recv;
  bytes_sent = sent;
  errin = 0;
  errout = 0;
  dropin = 0;
  dropout = 0;
}

-- The interface was reset between the readings: it has sent fewer bytes than before.

abbrev stats : ℕ → ℕ → DockerStats
stats recv usage = record {
  networks = (recv, 10) ∷ [];
  io_service_bytes = ("read", 4) ∷ [];
  memory_usage = 1_000;
  memory_limit = 2_000;
  memory_stats = empty_map;
  total_usage = usage;
  pre_total_usage = 50;
  system_usage = 900;
  pre_system_usage = 700;
  online_cpus = 2;
  percpu_count = 2;
}

abbrev web : DockerStats → Container
web s = record { names = "/web" ∷ []; state = "running"; stats = some s }

abbrev lower : String → String
lower s = s

abbrev first : DockerCollector
first = (collect_docker whole lower true (some (web (stats 100 60) ∷ [])) 10 new_docker_collector).1

collect_docker-rates_example :
    (docker_rates whole lower first.prev 20 "web" (snapshot_of lower (stats 140 80))
      ≡ differences whole lower "web"
          (snapshot_of lower (stats 100 60))
          (snapshot_of lower (stats 140 80))
          10)
    × (ms : List (Metric ℕ)) × ((collect_docker whole lower true
          (some (web (stats 140 80) ∷ []))
          20
          first).0
        ≡ some ms)
    × ((m : Metric ℕ)
        → Listed m (
            differences whole lower "web"
              (snapshot_of lower (stats 100 60))
              (snapshot_of lower (stats 140 80))
              10)
        → Listed m ms)
unfolding container_name snapshot_of
collect_docker-rates_example =
    collect_docker-rates whole lower new_docker_collector (web (stats 100 60) ∷ [])
      (web (stats 140 80) ∷ []) 10 20 (web (stats 140 80)) (stats 100 60) (stats 140 80)
      (omega arith) refl (inl refl) refl refl

-- The total has fallen from 50 to 20.

abbrev ascii_lower : ℕ → ℕ
ascii_lower c = if leb b'A' c && leb c b'Z' then c + 32 else c

-- "__Core  0__"
sanitize_sensor_name-IsSensorName_example :
    IsSensorName (b'c' ∷ b'o' ∷ b'r' ∷ b'e' ∷ b'_' ∷ b'0' ∷ [])
unfolding sanitize_sensor_name
sanitize_sensor_name-IsSensorName_example =
    sanitize_sensor_name-IsSensorName ascii_lower (λ c h. refl)
      (b'_' ∷ b'_' ∷ b'C' ∷ b'o' ∷ b'r' ∷ b'e' ∷ b' ' ∷ b' ' ∷ b'0' ∷ b'_' ∷ b'_' ∷ [])
