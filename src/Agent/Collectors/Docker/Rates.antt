-- ===== src/Agent/Collectors/Docker/Rates.antt =====
-- internal/agent/collect_docker.go: the rates of two collections one after the other.
use whatsupp.Base.{
  ℕ, ◌-◌, ◌<◌, ◌≡◌, refl, sym, subst, ◌∙◌, String, Bool, true, ◌&&◌, ◌||◌, List, [], ◌∷◌, Option,
  none, some, arith, ltb, leb, str_eq, if◌then◌else◌, Map, empty_map, insert, Listed, Listed-left,
  Listed-right, Bool-cases, Option-cases, inl, inr,
}
use whatsupp.Agent.Buffer.{Metric}
use whatsupp.Agent.Collectors.{Floats, two_64, sub_uint64}
use whatsupp.Agent.Collectors.Docker.{
  DockerIoSnapshot, DockerStats, Container, DockerCollector, container_name, sum_networks,
  sum_blkio, snapshot_of, docker_metric, usage_metrics, io_rates, docker_rates, collect_containers,
  collect_docker,
}

-- The statistics of the last running container of a name for which there are any.
abbrev pub last_stats : String → List Container → Option DockerStats
last_stats name [] = none
last_stats name (c ∷ cs) = elim (last_stats name cs) [
  | some s ↦ some s
  | none ↦
      if str_eq c.state "running" && str_eq (container_name c.names) name then c.stats else none
]

-- Every counter of the second is at least that of the first.
abbrev pub not_fallen : DockerIoSnapshot → DockerIoSnapshot → Bool
not_fallen p c =
    leb p.net_rx c.net_rx
    && leb p.net_tx c.net_tx
    && leb p.blk_read c.blk_read
    && leb p.blk_write c.blk_write

module _ {V : Type 0} (f : Floats V) (to_lower : String → String) where
  -- The four rates over a time, from the differences of the counters.
  abbrev pub differences : String → DockerIoSnapshot → DockerIoSnapshot → ℕ → List (Metric V)
  differences name p c elapsed =
      docker_metric f to_lower name "net_rx_bytes_sec" (f.per_second (c.net_rx - p.net_rx) elapsed)
      ∷ docker_metric f to_lower name "net_tx_bytes_sec"
          (f.per_second (c.net_tx - p.net_tx) elapsed)
      ∷ docker_metric f to_lower name "disk_read_bytes_sec"
          (f.per_second (c.blk_read - p.blk_read) elapsed)
      ∷ docker_metric f to_lower name "disk_write_bytes_sec"
          (f.per_second (c.blk_write - p.blk_write) elapsed)
      ∷ []

  current-last :
      (prev : Option (Map DockerIoSnapshot × ℕ)) (now : ℕ) (cs : List Container)
      (current : Map DockerIoSnapshot) (name : String)
      → (collect_containers f to_lower prev now cs current).1 name ≡ (elim (last_stats name cs) [
        | none ↦ current name
        | some s ↦ some (snapshot_of to_lower s)
      ])
  unfolding collect_containers
  current-last prev now [] current name = refl
  current-last prev now (c ∷ cs) current name = elim (Bool-cases (str_eq c.state "running")) [
    | inr stopped ↦
        rw (stopped, collect_containers)
          (ground (arith, current-last prev now cs current name, stopped))
    | inl running ↦ elim (Option-cases c.stats) [
      | inl missing ↦
          rw (running, missing, collect_containers)
            (ground (arith, current-last prev now cs current name, running, missing))
      | inr (s, found) ↦
          let current' = insert current (container_name c.names) (snapshot_of to_lower s) in
          rw (running, found, collect_containers)
            (ground (arith, current-last prev now cs current' name, running, found))
    ]
  ]

  container-Listed :
      (prev : Option (Map DockerIoSnapshot × ℕ)) (now : ℕ) (c : Container) (s : DockerStats)
      (cs : List Container) (current : Map DockerIoSnapshot) (m : Metric V)
      → str_eq c.state "running" ≡ true
      → c.stats ≡ some s
      → Listed c cs
      → Listed m
          (docker_rates f to_lower prev now (container_name c.names) (snapshot_of to_lower s))
      → Listed m (collect_containers f to_lower prev now cs current).0
  unfolding collect_containers
  container-Listed prev now c s [] current m r e h k = absurd h
  container-Listed prev now c s (d ∷ cs) current m r e (inl same) k =
      let snap = snapshot_of to_lower s in
      let name = container_name c.names in
      let of_c : Listed m (collect_containers f to_lower prev now (c ∷ cs) current).0 =
        rw (r, e, collect_containers)
          (inr (
            Listed-right m (usage_metrics f to_lower name s) _
              (Listed-left m (docker_rates f to_lower prev now name snap) _ k))) in
      subst (λ y. Listed m (collect_containers f to_lower prev now (y ∷ cs) current).0) same of_c
  container-Listed prev now c s (d ∷ cs) current m r e (inr h) k =
      elim (Bool-cases (str_eq d.state "running")) [
        | inr stopped ↦
            rw (stopped, collect_containers)
              (inr (container-Listed prev now c s cs current m r e h k))
        | inl running ↦ elim (Option-cases d.stats) [
          | inl missing ↦
              rw (running, missing, collect_containers)
                (inr (container-Listed prev now c s cs current m r e h k))
          | inr (t, found) ↦
              let name = container_name d.names in
              let snap = snapshot_of to_lower t in
              let further = container-Listed prev now c s cs (insert current name snap) m r e h k in
              rw (running, found, collect_containers)
                (inr (
                  Listed-right m (usage_metrics f to_lower name t) _
                    (Listed-right m (docker_rates f to_lower prev now name snap) _ further)))
        ]
      ]

  sum_networks-lt :
      (ns : List (ℕ × ℕ)) → ((sum_networks ns).0 < two_64) × ((sum_networks ns).1 < two_64)
  unfolding sum_networks
  sum_networks-lt [] = omega arith
  sum_networks-lt ((rx, tx) ∷ ns) = omega arith

  sum_blkio-lt :
      (es : List (String × ℕ))
      → ((sum_blkio to_lower es).0 < two_64) × ((sum_blkio to_lower es).1 < two_64)
  unfolding sum_blkio
  sum_blkio-lt [] = omega arith
  sum_blkio-lt ((op, n) ∷ es) = ground (arith, sum_blkio-lt es)

  sub_uint64-le : (old new : ℕ) → new < two_64 → leb old new ≡ true → sub_uint64 new old ≡ new - old
  sub_uint64-le old new k e = ground arith

  InRange : DockerIoSnapshot → Type 0
  InRange c =
      (c.net_rx < two_64) × (c.net_tx < two_64) × (c.blk_read < two_64) × (c.blk_write < two_64)

  snapshot_of-InRange : (s : DockerStats) → InRange (snapshot_of to_lower s)
  unfolding snapshot_of InRange
  snapshot_of-InRange s =
      let (rx, tx) = sum_networks-lt s.networks in
      let (reads, writes) = sum_blkio-lt s.io_service_bytes in (rx, tx, reads, writes)

  io_rates-differences :
      (name : String) (p c : DockerIoSnapshot) (elapsed : ℕ)
      → InRange c
      → not_fallen p c ≡ true
      → io_rates f to_lower name p c elapsed ≡ differences name p c elapsed
  unfolding InRange
  io_rates-differences name p c elapsed (rx, tx, reads, writes) e =
      rw
        (
          sub_uint64-le p.net_rx c.net_rx rx (ground (arith, e)),
          sub_uint64-le p.net_tx c.net_tx tx (ground (arith, e)),
          sub_uint64-le p.blk_read c.blk_read reads (ground (arith, e)),
          sub_uint64-le p.blk_write c.blk_write writes (ground (arith, e)),
        )
        refl

  -- The rates of a container that the last collection, at an earlier time, has statistics of.
  docker_rates-since :
      (d : DockerCollector) (before : List Container) (earlier now : ℕ) (name : String)
      (old s : DockerStats)
      → earlier < now
      → last_stats name before ≡ some old
      → let p = snapshot_of to_lower old in
        let c = snapshot_of to_lower s in
        docker_rates f to_lower
          (collect_docker f to_lower true (some before) earlier d).1.prev
          now
          name
          c
        ≡ (if not_fallen p c then differences name p c (now - earlier) else [])
  unfolding collect_docker docker_rates
  docker_rates-since d before earlier now name old s later last =
      let p = snapshot_of to_lower old in
      let c = snapshot_of to_lower s in
      let io = (collect_containers f to_lower d.prev earlier before empty_map).1 in
      let known : io name ≡ some p =
        current-last d.prev earlier before empty_map name ∙ rw last refl in
      let advanced : ltb earlier now ≡ true = ground arith in
      let connected : (d.has_client || true) ≡ true = ground arith in
      rw connected (
        rw (known, docker_rates)
          (rw advanced (elim (Bool-cases (not_fallen p c)) [
            | inl rises ↦
                rw rises
                  (io_rates-differences name p c (now - earlier) (snapshot_of-InRange s) rises)
            | inr falls ↦ rw falls refl
          ])))

  -- Two collections one after the other that can list the containers, with the clock advanced: of a
  -- running container of the second of which the first has statistics, the second reports as rates
  -- the differences of the four counters over that time if none has fallen, and takes no rate into
  -- its metrics if one has.
  pub collect_docker-rates :
      (d : DockerCollector) (before after : List Container) (earlier now : ℕ) (c : Container)
      (old s : DockerStats)
      → earlier < now
      → last_stats (container_name c.names) before ≡ some old
      → Listed c after
      → str_eq c.state "running" ≡ true
      → c.stats ≡ some s
      → let d' = (collect_docker f to_lower true (some before) earlier d).1 in
        let name = container_name c.names in
        let p = snapshot_of to_lower old in
        let q = snapshot_of to_lower s in
        let rates = if not_fallen p q then differences name p q (now - earlier) else [] in
        (docker_rates f to_lower d'.prev now name q ≡ rates)
        × (ms : List (Metric V)) × ((collect_docker f to_lower true (some after) now d').0
            ≡ some ms)
        × ((m : Metric V) → Listed m rates → Listed m ms)
  unfolding collect_docker
  collect_docker-rates d before after earlier now c old s later last there running found =
      let d' = (collect_docker f to_lower true (some before) earlier d).1 in
      let name = container_name c.names in
      let q = snapshot_of to_lower s in
      let same = docker_rates-since d before earlier now name old s later last in
      let ms = (collect_containers f to_lower d'.prev now after empty_map).0 in
      let connected : (d'.has_client || true) ≡ true = ground arith in
      (
        same,
        ms,
        rw connected refl,
        λ m listed.
            container-Listed d'.prev now c s after empty_map m running found there
              (subst (Listed m) (sym same) listed),
      )
