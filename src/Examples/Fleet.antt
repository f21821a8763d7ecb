-- ===== src/Examples/Fleet.antt =====
-- internal/hub/staleness.go: a check of two agents, one of which has recovered.
use whatsupp.Base.{
  ℕ, ◌*◌, ◌≡◌, refl, String, true, false, not, List, [], ◌∷◌, none, arith, str_eq, if◌then◌else◌,
  empty_map, Bool-cases, inl, inr, pos,
}
use whatsupp.Alerting.{no_metrics, new_ntfy_client}
use whatsupp.Store.{Store, Incident, fresh_id}
use whatsupp.Store.Incidents.{open_count}
use whatsupp.Staleness.{HeartbeatRow, StalenessChecker, is_stale_at, is_silent, check, second}
use whatsupp.Staleness.Detection.{Watched, is_named, check_lem}

abbrev lost : Incident
lost = record {
  id = 1;
  monitor = "agent:nas";
  started_at = 1000;
  resolved_at = none;
  cause = no_metrics "nas" (300 * second);
}

abbrev store : Store
store = record {
  tables = record {
    check_results = [];
    check_results_hourly = [];
    check_results_daily = [];
    incidents = lost ∷ [];
    security_scans = [];
    security_baselines = empty_map;
  };
  fails = λ n. false;
  calls = 0;
}

abbrev checker : StalenessChecker
checker = record {
  store = store;
  alerter = new_ntfy_client (pos 0);
  alerts = [];
  threshold = 300 * second;
}

abbrev heartbeats : List HeartbeatRow
heartbeats =
    record { host = "laptop"; last_seen_at = 1000 }
    ∷ record { host = "nas"; last_seen_at = 1990 }
    ∷ []

store-Watched : Watched store
unfolding fresh_id
store-Watched = record {
  never_fails = λ n. refl;
  ids = (omega arith, tt);
  at_most_one = λ j. elim (Bool-cases (str_eq "agent:nas" j)) [
    | inl same ↦ ground arith
    | inr other ↦ ground arith
  ];
}

abbrev sent_at : String → ℕ
sent_at host = 2001 * second

check_lem_example :
    ((check (2000 * second) sent_at heartbeats checker).0 ≡ true)
    × Watched (check (2000 * second) sent_at heartbeats checker).1.store
    × ((j : String)
        → open_count j (check (2000 * second) sent_at heartbeats checker).1.store.tables.incidents
          ≡ (if is_named (λ hb. not (is_silent (2000 * second) (300 * second) hb)) j heartbeats
              then 0
              else if is_named (is_stale_at (2000 * second) (300 * second)) j heartbeats
              then 1
              else open_count j store.tables.incidents))
check_lem_example = check_lem (2000 * second) sent_at heartbeats checker store-Watched
