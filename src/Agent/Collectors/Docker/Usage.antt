-- ===== src/Agent/Collectors/Docker/Usage.antt =====
-- internal/agent/collect_docker.go: the use of processors and memory.
use whatsupp.Base.{◌≤◌, ◌<◌, ◌≡◌, String, arith, ◌==◌, if◌then◌else◌}
use whatsupp.Agent.Collectors.{Floats, two_64, wrapped, sub_uint64-wrapped}
use whatsupp.Agent.Collectors.Docker.{DockerStats, num_cpus, docker_cpu_percent, docker_mem_usage}

-- The memory in use without the page cache is no more than the memory in use.
docker_mem_usage-le : (s : DockerStats) → docker_mem_usage s ≤ s.memory_usage
unfolding docker_mem_usage
docker_mem_usage-le s = ground arith

module _ {V : Type 0} (f : Floats V) (to_lower : String → String) where
  -- The processor use is zero by its guard exactly if the use of the system is the same in both
  -- readings; else a use that has fallen between them counts as 2 ^ 64 less its fall.
  docker_cpu_percent_lem :
      (s : DockerStats)
      → (s.total_usage < two_64) × (s.pre_total_usage < two_64)
      → (s.system_usage < two_64) × (s.pre_system_usage < two_64)
      → docker_cpu_percent f to_lower s ≡ (
          if s.system_usage == s.pre_system_usage
          then f.zero_value
          else f.cpu_percent
              (wrapped s.pre_total_usage s.total_usage)
              (wrapped s.pre_system_usage s.system_usage)
              (num_cpus s))
  unfolding docker_cpu_percent
  docker_cpu_percent_lem s total system =
      rw
        (
          sub_uint64-wrapped s.pre_total_usage s.total_usage total.1 total.0,
          sub_uint64-wrapped s.pre_system_usage s.system_usage system.1 system.0,
        )
        (ground (arith, system, total))
