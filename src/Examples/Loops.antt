-- ===== src/Examples/Loops.antt =====
-- internal/agent: a loop with two collectors, of which one fails, whose results arrive in reverse.
use mathlib.Core.List.{reverse, Permᴰ}
use mathlib.Core.List.Permᴰ
use whatsupp.Base.{
  ℕ, ◌+◌, ◌≤◌, ◌≡◌, refl, List, [], ◌∷◌, none, some, ◌==◌, if◌then◌else◌, empty_map,
}
use whatsupp.Agent.{Transport}
use whatsupp.Agent.Push.{classify}
use whatsupp.Agent.Backoff.{Backoff, new_backoff, failure}
use whatsupp.Agent.Collect.{
  Collector, CollectResult, LoopConfig, AgentLoop, Tick, new, collect, start_collectors, next_batch,
  collect_and_push, run,
}
use whatsupp.Agent.Collect.Order.{collect_in_any_order}
use whatsupp.Agent.Collect.Once.{held, made, sent_once, run_delivers}

abbrev docker : Collector ℕ
docker = record { name = "docker"; collect = λ now. none }

abbrev cpu : Collector ℕ
cpu = record {
  name = "cpu";
  collect = λ now. some (record { name = "cpu.usage_pct"; value = now } ∷ []);
}

abbrev throttle : Backoff
throttle = new_backoff 30 1_800

abbrev arrival : List (CollectResult ℕ) → List (CollectResult ℕ)
arrival rs = reverse rs

collect_in_any_order_example :
    ((collect arrival 100 (docker ∷ cpu ∷ []) throttle).1.state "docker"
      ≡ (failure throttle "docker" 100).0.state "docker")
    × Permᴰ
        (collect arrival 100 (docker ∷ cpu ∷ []) throttle).0
        (record { name = "cpu.usage_pct"; value = 100 } ∷ [])
unfolding failure new_backoff start_collectors
collect_in_any_order_example =
    collect_in_any_order arrival 100 (docker ∷ cpu ∷ []) throttle docker Permᴰ.reverse refl

abbrev settings : LoopConfig
settings = record { hostname = "nas"; interval = 30; collectors = empty_map }

abbrev loop : AgentLoop ℕ
loop = new settings (docker ∷ cpu ∷ [])

abbrev at : ℕ → Tick
at t = record { started = t; stamped = t + 1; pushed = t + 2 }

-- Only the first request fails.
abbrev hub : Transport ℕ
hub n batch = if n == 0 then none else some 204

abbrev willing : Transport ℕ
willing n batch = some 204

sent_once_example :
    held (λ b. b.timestamp == 11) (run arrival hub "1.0" (at 10 ∷ at 40 ∷ []) 50 loop).pushes ≤ 1
unfolding new next_batch collect_and_push
sent_once_example =
    sent_once arrival hub "1.0" (λ b. b.timestamp == 11) (at 10 ∷ at 40 ∷ []) 50 loop

run_delivers_example :
    ((run arrival willing "1.0" (at 10 ∷ at 40 ∷ []) 50 loop).pushes.delivered
      ≡ made arrival willing "1.0" (at 10 ∷ at 40 ∷ []) loop)
    × ((run arrival willing "1.0" (at 10 ∷ at 40 ∷ []) 50 loop).pushes.buffer.batches ≡ [])
unfolding new
run_delivers_example =
    run_delivers arrival willing "1.0" (at 10 ∷ at 40 ∷ []) 50 loop (unfold classify in λ n b. refl)
      refl
