-- ===== src/Listings.antt =====
-- internal/api/handlers.go, internal/hub/store_adapter.go, internal/store/queries.go: the lists of
-- incidents and of scans. Times are in seconds and not negative, and the time of a request is at
-- least a day; encoding a reply does not fail.
pub mod Rows
pub mod Outages
use whatsupp.Base.{ℕ, ◌-◌, String, Bool, ◌&&◌, List, Option, none, some, leb, keep_if, map}
use whatsupp.Alerting.{Cause}
use whatsupp.Store.{
  Incident, SecurityScan, Store, Db, statement, pure, ◌>>=◌, by_start, get_all_security_scans,
}

-- A query parameter is none if it is absent or no integer.
unfoldable pub parse_time_range : Option ℕ → Option ℕ → ℕ → ℕ × ℕ
parse_time_range from to now = (
  elim from [ none ↦ now - 86_400 | some epoch ↦ epoch ],
  elim to [ none ↦ now | some epoch ↦ epoch ],
)

abbrev pub in_range : ℕ → ℕ → Incident → Bool
in_range from to r = leb from r.started_at && leb r.started_at to

unfoldable pub get_incidents : ℕ → ℕ → Db (List Incident)
unfolding statement by_start
get_incidents from to = statement λ t. (by_start (keep_if (in_range from to) t.incidents), t)

pub record ApiIncident : Type 0 where
  pub id : ℕ
  pub monitor : String
  pub started_at : ℕ
  pub resolved_at : Option ℕ
  pub cause : Cause

unfoldable pub as_api : Incident → ApiIncident
as_api r = record {
  id = r.id;
  monitor = r.monitor;
  started_at = r.started_at;
  resolved_at = r.resolved_at;
  cause = r.cause;
}

unfoldable pub adapter_get_incidents : ℕ → ℕ → Db (List ApiIncident)
unfolding get_incidents as_api
adapter_get_incidents from to = get_incidents from to >>= λ rows. pure (map as_api rows)

-- Status 500, or 200 with the list.
pub data Reply (A : Type 0) : Type 0 where
  query_failed : Reply A
  listed : A → Reply A

abbrev pub reply : {A : Type 0} → Option A × Store → Reply A × Store
reply (none, s) = (query_failed, s)
reply (some a, s) = (listed a, s)

unfoldable pub list_incidents : Option ℕ → Option ℕ → ℕ → Store → Reply (List ApiIncident) × Store
unfolding parse_time_range adapter_get_incidents
list_incidents from to now s =
    let (start, end) = parse_time_range from to now in reply (adapter_get_incidents start end s)

-- GET /api/v1/security/scans
unfoldable pub list_security_scans : Store → Reply (List SecurityScan) × Store
unfolding get_all_security_scans
list_security_scans s = reply (get_all_security_scans s)
