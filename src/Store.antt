-- ===== src/Store.antt =====
-- internal/store: the tables that the hub reads and writes, as lists of rows, newest row first, or
-- as maps by their primary key. A statement fails or takes effect as a whole; `fails` says which
-- ones fail, by their number. The JSON text of a port list is the list.
pub mod Incidents
pub mod Failures
pub mod Scans
use whatsupp.Base.{
  ℕ, suc, ◌+◌, String, Bool, true, false, ◌&&◌, List, [], ◌∷◌, Option, none, some, ltb, leb, ◌==◌,
  str_eq, if◌then◌else◌, length, keep_if, take, map, Map, insert, empty_map,
}
use whatsupp.Monitor.{Metadata}
use whatsupp.Alerting.{Cause}

pub record CheckRow : Type 0 where
  pub monitor : String
  pub timestamp : ℕ
  pub status : String
  pub latency_us : ℕ
  pub metadata : Metadata

pub record Incident : Type 0 where
  pub id : ℕ
  pub monitor : String
  pub started_at : ℕ
  pub resolved_at : Option ℕ
  pub cause : Cause

pub record SecurityScan : Type 0 where
  pub target : String
  pub timestamp : ℕ
  pub open_ports : List ℕ

pub record SecurityBaseline : Type 0 where
  pub expected_ports : List ℕ
  pub updated_at : ℕ

-- A row of check_results_hourly or check_results_daily without the latencies and the percentage.
pub record CheckSummary : Type 0 where
  pub monitor : String
  pub bucket : ℕ
  pub success_count : ℕ
  pub fail_count : ℕ

pub record Tables : Type 0 where
  pub check_results : List CheckRow
  pub check_results_hourly : List CheckSummary
  pub check_results_daily : List CheckSummary
  pub incidents : List Incident
  pub security_scans : List SecurityScan
  pub security_baselines : Map SecurityBaseline

pub record Store : Type 0 where
  pub tables : Tables
  pub fails : ℕ → Bool
  pub calls : ℕ

-- A method of the store: `none` stands for an error.
abbrev pub Db {ℓ} : Type ℓ → Type ℓ
Db A = Store → Option A × Store

abbrev pub pure {ℓ} : {A : Type ℓ} → A → Db A
pure a s = (some a, s)

abbrev pub continue {ℓ κ} : {A : Type ℓ} {B : Type κ} → Option A → (A → Db B) → Db B
continue none f s = (none, s)
continue (some a) f s = f a s

infixl 5 ◌>>=◌ ◌>>◌
abbrev pub ◌>>=◌ {ℓ κ} : {A : Type ℓ} {B : Type κ} → Db A → (A → Db B) → Db B
◌>>=◌ m f s = let (r, s') = m s in continue r f s'

abbrev pub ◌>>◌ {ℓ} : {B : Type ℓ} → Db (Unit {0}) → Db B → Db B
m >> k = m >>= λ _. k

-- One statement.
unfoldable pub statement {ℓ} : {A : Type ℓ} → (Tables → A × Tables) → Db A
statement f s =
    let (a, tables) = f s.tables in
    if s.fails s.calls
    then (none, record s { calls = s.calls + 1 })
    else (some a, record s { tables = tables; calls = s.calls + 1 })

unfoldable pub insert_check_result : CheckRow → Db (Unit {0})
unfolding statement
insert_check_result row = statement λ t. (tt, record t { check_results = row ∷ t.check_results })

abbrev pub is_open : Incident → Bool
is_open r = elim r.resolved_at [ none ↦ true | some t ↦ false ]

-- INTEGER PRIMARY KEY: one more than the greatest id.
unfoldable pub fresh_id : List Incident → ℕ
fresh_id [] = 1
fresh_id (r ∷ rows) = let rest = fresh_id rows in if ltb r.id rest then rest else suc r.id

unfoldable pub create_incident : String → ℕ → Cause → Db ℕ
unfolding statement fresh_id
create_incident monitor started_at cause = statement λ t.
    let id = fresh_id t.incidents in
    let row : Incident = record {
      id = id;
      monitor = monitor;
      started_at = started_at;
      resolved_at = none;
      cause = cause;
    } in
    (id, record t { incidents = row ∷ t.incidents })

unfoldable pub resolve_row : ℕ → ℕ → Incident → Incident
resolve_row id at r = if r.id == id then record r { resolved_at = some at } else r

unfoldable pub resolve_incident : ℕ → ℕ → Db (Unit {0})
unfolding statement resolve_row
resolve_incident id at =
    statement λ t. (tt, record t { incidents = map (resolve_row id at) t.incidents })

-- ORDER BY started_at DESC LIMIT 1; of equal times the newer row.
abbrev pub later_of : Incident → Option Incident → Option Incident
later_of r none = some r
later_of r (some q) = if ltb r.started_at q.started_at then some q else some r

unfoldable pub open_of : String → List Incident → Option Incident
open_of monitor [] = none
open_of monitor (r ∷ rows) =
    let rest = open_of monitor rows in
    if is_open r && str_eq r.monitor monitor then later_of r rest else rest

unfoldable pub get_open_incident : String → Db (Option Incident)
unfolding statement open_of
get_open_incident monitor = statement λ t. (open_of monitor t.incidents, t)

-- Rows by falling started_at.
unfoldable pub insert_by_start : Incident → List Incident → List Incident
insert_by_start r [] = r ∷ []
insert_by_start r (q ∷ rows) =
    let rest = insert_by_start r rows in
    if ltb r.started_at q.started_at then q ∷ rest else r ∷ q ∷ rows

unfoldable pub by_start : List Incident → List Incident
unfolding insert_by_start
by_start [] = []
by_start (r ∷ rows) = insert_by_start r (by_start rows)

unfoldable pub get_all_open_incidents : Db (List Incident)
unfolding statement by_start
get_all_open_incidents = statement λ t. (by_start (keep_if is_open t.incidents), t)

unfoldable pub insert_security_scan : String → ℕ → List ℕ → Db (Unit {0})
unfolding statement
insert_security_scan target timestamp open_ports = statement λ t.
    let row : SecurityScan = record {
      target = target;
      timestamp = timestamp;
      open_ports = open_ports;
    } in
    (tt, record t { security_scans = row ∷ t.security_scans })

unfoldable pub upsert_security_baseline : String → List ℕ → ℕ → Db (Unit {0})
unfolding statement
upsert_security_baseline target ports updated_at = statement λ t.
    let row : SecurityBaseline = record { expected_ports = ports; updated_at = updated_at } in
    (tt, record t { security_baselines = insert t.security_baselines target row })

unfoldable pub get_security_baseline : String → Db (Option SecurityBaseline)
unfolding statement
get_security_baseline target = statement λ t. (t.security_baselines target, t)

-- ORDER BY timestamp DESC; of equal times the newer row first.
unfoldable insert_by_time : SecurityScan → List SecurityScan → List SecurityScan
insert_by_time r [] = r ∷ []
insert_by_time r (q ∷ rows) =
    let rest = insert_by_time r rows in
    if ltb r.timestamp q.timestamp then q ∷ rest else r ∷ q ∷ rows

unfoldable pub by_time : List SecurityScan → List SecurityScan
unfolding insert_by_time
by_time [] = []
by_time (r ∷ rows) = insert_by_time r (by_time rows)

unfoldable pub get_recent_security_scans : String → ℕ → Db (List SecurityScan)
unfolding statement by_time
get_recent_security_scans target limit =
    statement
      λ t. (take limit (by_time (keep_if (λ r. str_eq r.target target) t.security_scans)), t)

-- ORDER BY timestamp DESC LIMIT 100
unfoldable pub get_all_security_scans : Db (List SecurityScan)
unfolding statement by_time
get_all_security_scans = statement λ t. (take 100 (by_time t.security_scans), t)
