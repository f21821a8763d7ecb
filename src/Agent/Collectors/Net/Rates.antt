-- ===== src/Agent/Collectors/Net/Rates.antt =====
-- internal/agent/collect_net.go: the rates of two collections one after the other.
use whatsupp.Base.{
  ℕ, ◌-◌, ◌<◌, ◌≡◌, refl, sym, ap, subst, ◌∙◌, String, true, false, List, [], ◌∷◌, Option, none,
  some, arith, ltb, str_eq, eq_iff, if◌then◌else◌, Map, empty_map, insert, Listed, Listed-left,
  Listed-right, Bool-cases, inl, inr,
}
use whatsupp.Agent.Buffer.{Metric}
use whatsupp.Agent.Collectors.{Floats, two_64, wrapped, sub_uint64-wrapped}
use whatsupp.Agent.Collectors.Net.{
  IoCounters, NetCollector, is_filtered_interface, net_metric, counter_metrics, rates_since,
  rate_metrics, collect_interfaces, collect_net,
}

-- The last reading of an interface in a list.
abbrev pub last_of : String → List IoCounters → Option IoCounters
last_of name [] = none
last_of name (c ∷ cs) = elim (last_of name cs) [
  | some p ↦ some p
  | none ↦ if str_eq c.name name then some c else none
]

module _ {V : Type 0} (f : Floats V) where
  current-last :
      (prev : Option (Map IoCounters × ℕ)) (now : ℕ) (cs : List IoCounters)
      (current : Map IoCounters) (name : String)
      → is_filtered_interface name ≡ false
      → (collect_interfaces f prev now cs current).1 name
        ≡ (elim (last_of name cs) [ none ↦ current name | some p ↦ some p ])
  unfolding collect_interfaces
  current-last prev now [] current name e = refl
  current-last prev now (c ∷ cs) current name e = elim (Bool-cases (is_filtered_interface c.name)) [
    | inl skipped ↦
        let ih = current-last prev now cs current name e in
        let other : str_eq c.name name ≡ false = elim (Bool-cases (str_eq c.name name)) [
          | inl same ↦
              absurd (cc (sym skipped ∙ ap is_filtered_interface ((eq_iff c.name name).0 same) ∙ e))
          | inr differ ↦ differ
        ] in
        rw (skipped, collect_interfaces) (ground (arith, ih, other))
    | inr shown ↦
        let ih = current-last prev now cs (insert current c.name c) name e in
        rw (shown, collect_interfaces) (ground (arith, ih))
  ]

  interface-Listed :
      (prev : Option (Map IoCounters × ℕ)) (now : ℕ) (c : IoCounters) (cs : List IoCounters)
      (current : Map IoCounters) (m : Metric V)
      → is_filtered_interface c.name ≡ false
      → Listed c cs
      → Listed m (rate_metrics f prev now c)
      → Listed m (collect_interfaces f prev now cs current).0
  unfolding collect_interfaces
  interface-Listed prev now c [] current m e h k = absurd h
  interface-Listed prev now c (d ∷ cs) current m e (inl same) k =
      let shown : is_filtered_interface d.name ≡ false =
        ap (λ x. is_filtered_interface x.name) (sym same) ∙ e in
      let there : Listed m (rate_metrics f prev now d) =
        subst (λ x. Listed m (rate_metrics f prev now x)) same k in
      rw (shown, collect_interfaces)
        (Listed-right m (counter_metrics f d) _ (Listed-left m (rate_metrics f prev now d) _ there))
  interface-Listed prev now c (d ∷ cs) current m e (inr h) k =
      elim (Bool-cases (is_filtered_interface d.name)) [
        | inl skipped ↦
            rw (skipped, collect_interfaces) (interface-Listed prev now c cs current m e h k)
        | inr shown ↦
            let further = interface-Listed prev now c cs (insert current d.name d) m e h k in
            rw (shown, collect_interfaces)
              (Listed-right m (counter_metrics f d) _
                (Listed-right m (rate_metrics f prev now d) _ further))
      ]

  -- Two collections one after the other, with the counters read, report for each interface of the
  -- second that is not filtered and of which the first has a reading, if the clock has advanced: as
  -- its rates over that time the bytes received and sent since the last reading of the first
  -- collection, and if a counter has fallen, 2 ^ 64 less the bytes by which it has fallen.
  collect_net-rates :
      (n : NetCollector) (before after : List IoCounters) (earlier now : ℕ) (p c : IoCounters)
      → is_filtered_interface c.name ≡ false
      → last_of c.name before ≡ some p
      → Listed c after
      → earlier < now
      → (p.bytes_recv < two_64) × (p.bytes_sent < two_64)
      → (c.bytes_recv < two_64) × (c.bytes_sent < two_64)
      → (ms : List (Metric V)) × ((collect_net f
            (some after)
            now
            (collect_net f (some before) earlier n).1).0
          ≡ some ms)
        × Listed
            (net_metric f c "rx_bytes_sec"
              (f.per_second (wrapped p.bytes_recv c.bytes_recv) (now - earlier)))
            ms
        × Listed
            (net_metric f c "tx_bytes_sec"
              (f.per_second (wrapped p.bytes_sent c.bytes_sent) (now - earlier)))
            ms
  unfolding collect_net rate_metrics
  collect_net-rates n before after earlier now p c shown last there later old new =
      let io = (collect_interfaces f n.prev earlier before empty_map).1 in
      let prev : Option (Map IoCounters × ℕ) = some (io, earlier) in
      let known : io c.name ≡ some p =
        current-last n.prev earlier before empty_map c.name shown ∙ rw last refl in
      let advanced : ltb earlier now ≡ true = ground arith in
      let rates : rate_metrics f prev now c ≡ rates_since f p c (now - earlier) =
        rw (known, rate_metrics) (rw advanced refl) in
      let listed = λ (m : Metric V) (k : Listed m (rates_since f p c (now - earlier))).
        interface-Listed prev now c after empty_map m shown there
          (subst (Listed m) (sym rates) k) in
      (
        (collect_interfaces f prev now after empty_map).0,
        refl,
        listed _ (
            inl (
              ap (λ d. net_metric f c "rx_bytes_sec" (f.per_second d (now - earlier)))
                (sym (sub_uint64-wrapped p.bytes_recv c.bytes_recv old.0 new.0)))),
        listed _ (
            inr (
              inl (
                ap (λ d. net_metric f c "tx_bytes_sec" (f.per_second d (now - earlier)))
                  (sym (sub_uint64-wrapped p.bytes_sent c.bytes_sent old.1 new.1))))),
      )
