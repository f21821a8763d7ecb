-- ===== src/Staleness/Detection.antt =====
-- internal/hub/staleness.go: which incidents are open after a check of the heartbeats.
use whatsupp.Base.{
  ℕ, ◌+◌, ◌/◌, ◌≤◌, ◌≡◌, refl, ◌∙◌, String, Bool, true, false, not, ◌||◌, List, [], ◌∷◌, none, some,
  arith, str_eq, eq_iff, if◌then◌else◌, keep_if, Option-cases, Bool-cases, inl, inr, map,
}
use whatsupp.Alerting.{no_metrics}
use whatsupp.Store.{Store, Incident, is_open, fresh_id, open_of, resolve_row}
use whatsupp.Store.Incidents.{
  open_count, Below, Below-create, Below-fresh_id, Below-resolve, open_of-none,
  open_count-resolve_found,
}
use whatsupp.Hub.Consistency.{NeverFails}
use whatsupp.Staleness.{
  HeartbeatRow, StalenessChecker, monitor_name, is_stale_at, is_silent, open_stale,
  resolve_recovered, open_each, resolve_each_recovered, check_recovered, check, get_stale_agents,
  get_all_heartbeats, second,
}

-- No statement fails, the ids of the incidents are distinct, and no monitor has two open ones.
pub record Watched (s : Store) : Type 0 where
  pub never_fails : NeverFails s
  pub ids : Below (fresh_id s.tables.incidents) s.tables.incidents
  pub at_most_one : (j : String) → open_count j s.tables.incidents ≤ 1

-- A row that passes a test is of the agent with that monitor name.
abbrev pub is_named : (HeartbeatRow → Bool) → String → List HeartbeatRow → Bool
is_named p j [] = false
is_named p j (hb ∷ rows) =
    let rest = is_named p j rows in if p hb then str_eq (monitor_name hb.host) j || rest else rest

open_of-some :
    (m : String) (rows : List Incident) (r : Incident)
    → open_of m rows ≡ some r
    → 1 ≤ open_count m rows
unfolding open_of
open_of-some m [] r e = cc
open_of-some m (x ∷ rows) r e = elim (Option-cases (open_of m rows)) [
  | inl gone ↦ ground (arith, gone, e)
  | inr (q, found) ↦ ground (arith, found, open_of-some m rows q found, e)
]

-- A step leaves `k` open incidents of one monitor, and those of the others as they are.
record Leaves (k : ℕ) (name : String) (s s' : Store) : Type 0 where
  watched : Watched s'
  counts :
      (j : String)
      → open_count j s'.tables.incidents
        ≡ (if str_eq name j then k else open_count j s.tables.incidents)

module _ (name : String) (s s' : Store) (w : Watched s) (same_fails : s'.fails ≡ s.fails) where
  none_opened :
      (k : ℕ)
      → s'.tables.incidents ≡ s.tables.incidents
      → open_count name s.tables.incidents ≡ k
      → Leaves k name s s'
  none_opened k same e = record {
    watched = record {
      never_fails = λ n. rw same_fails (w.never_fails n);
      ids = rw same w.ids;
      at_most_one = λ j. rw same (w.at_most_one j);
    };
    counts = λ j. rw same (ground (arith, e, eq_iff name j));
  }

  one_opened :
      (row : Incident)
      → s'.tables.incidents ≡ row ∷ s.tables.incidents
      → row.id ≡ fresh_id s.tables.incidents
      → is_open row ≡ true
      → row.monitor ≡ name
      → open_count name s.tables.incidents ≡ 0
      → Leaves 1 name s s'
  one_opened row rows fresh unresolved named e =
      let counted : (j : String)
          → open_count j s'.tables.incidents
            ≡ (if str_eq name j then 1 else open_count j s.tables.incidents) =
        λ j. rw (rows, named, unresolved) (ground (arith, e, eq_iff name j)) in
      record {
        watched = record {
          never_fails = λ n. rw same_fails (w.never_fails n);
          ids = rw rows (Below-create row s.tables.incidents fresh w.ids);
          at_most_one = λ j. ground (arith, counted j, w.at_most_one j);
        };
        counts = counted;
      }

  one_resolved :
      (r : Incident) (at : ℕ)
      → s'.tables.incidents ≡ map (resolve_row r.id at) s.tables.incidents
      → open_of name s.tables.incidents ≡ some r
      → Leaves 0 name s s'
  one_resolved r at rows found =
      let counted : (j : String)
          → open_count j s'.tables.incidents
            ≡ (if str_eq name j then 0 else open_count j s.tables.incidents) =
        λ j. rw rows (
          ground (
            arith,
            open_count-resolve_found _ at name j r s.tables.incidents w.ids found,
            w.at_most_one name,
            eq_iff name j,
          )) in
      record {
        watched = record {
          never_fails = λ n. rw same_fails (w.never_fails n);
          ids = rw rows (Below-fresh_id _ _ (Below-resolve _ r.id at s.tables.incidents w.ids));
          at_most_one = λ j. ground (arith, counted j, w.at_most_one j);
        };
        counts = counted;
      }

open_stale-Leaves :
    (now alerted : ℕ) (hb : HeartbeatRow) (sc : StalenessChecker)
    → Watched sc.store
    → Leaves 1 (monitor_name hb.host) sc.store (open_stale now alerted hb sc).store
unfolding open_stale
open_stale-Leaves now alerted hb sc w =
    let name = monitor_name hb.host in
    let rows = sc.store.tables.incidents in
    let s' = (open_stale now alerted hb sc).store in
    let ok = w.never_fails in
    elim (Option-cases (open_of name rows)) [
      | inl absent ↦
          one_opened name sc.store s' w
            (ground (arith, absent, ok sc.store.calls, ok (sc.store.calls + 1)))
            (record {
              id = fresh_id rows;
              monitor = name;
              started_at = now / second;
              resolved_at = none;
              cause = no_metrics hb.host sc.threshold;
            })
            (ground (arith, absent, ok sc.store.calls, ok (sc.store.calls + 1))) refl refl refl
            (open_of-none name rows absent)
      | inr (r, found) ↦
          none_opened name sc.store s' w (ground (arith, found, ok sc.store.calls)) 1
            (ground (arith, found, ok sc.store.calls))
            (omega (arith, open_of-some name rows r found, w.at_most_one name))
    ]

resolve_recovered-Leaves :
    (now : ℕ) (hb : HeartbeatRow) (sc : StalenessChecker)
    → Watched sc.store
    → is_silent now sc.threshold hb ≡ false
    → Leaves 0 (monitor_name hb.host) sc.store (resolve_recovered now hb sc).store
unfolding resolve_recovered
resolve_recovered-Leaves now hb sc w heard =
    let name = monitor_name hb.host in
    let rows = sc.store.tables.incidents in
    let s' = (resolve_recovered now hb sc).store in
    let ok = w.never_fails in
    elim (Option-cases (open_of name rows)) [
      | inl absent ↦
          none_opened name sc.store s' w (ground (arith, heard, absent, ok sc.store.calls)) 0
            (ground (arith, heard, absent, ok sc.store.calls)) (open_of-none name rows absent)
      | inr (r, found) ↦
          one_resolved name sc.store s' w
            (ground (arith, heard, found, ok sc.store.calls, ok (sc.store.calls + 1))) r
            (now / second)
            (ground (arith, heard, found, ok sc.store.calls, ok (sc.store.calls + 1))) found
    ]

-- A loop over rows leaves `k` open incidents of each monitor that is named by a row with a test.
record Swept (k : ℕ) (p : HeartbeatRow → Bool) (rows : List HeartbeatRow) (s s' : Store)
    : Type 0 where
  watched : Watched s'
  counts :
      (j : String)
      → open_count j s'.tables.incidents
        ≡ (if is_named p j rows then k else open_count j s.tables.incidents)

is_named-keep_if :
    (p : HeartbeatRow → Bool) (j : String) (rows : List HeartbeatRow)
    → is_named (λ hb. true) j (keep_if p rows) ≡ is_named p j rows
is_named-keep_if p j [] = refl
is_named-keep_if p j (hb ∷ rows) = ground (arith, is_named-keep_if p j rows)

open_each-Swept :
    (now : ℕ) (alerted : String → ℕ) (rows : List HeartbeatRow) (sc : StalenessChecker)
    → Watched sc.store
    → Swept 1 (λ hb. true) rows sc.store (open_each now alerted rows sc).store
unfolding open_each
open_each-Swept now alerted [] sc w = record { watched = w; counts = λ j. refl }
open_each-Swept now alerted (hb ∷ rows) sc w =
    let first = open_stale-Leaves now (alerted hb.host) hb sc w in
    let rest =
      open_each-Swept now alerted rows (open_stale now (alerted hb.host) hb sc) first.watched in
    record { watched = rest.watched; counts = λ j. ground (arith, first.counts j, rest.counts j) }

open_stale-threshold :
    (now alerted : ℕ) (hb : HeartbeatRow) (sc : StalenessChecker)
    → (open_stale now alerted hb sc).threshold ≡ sc.threshold
unfolding open_stale
open_stale-threshold now alerted hb sc =
    ground (arith, Option-cases (open_of (monitor_name hb.host) sc.store.tables.incidents))

open_each-threshold :
    (now : ℕ) (alerted : String → ℕ) (rows : List HeartbeatRow) (sc : StalenessChecker)
    → (open_each now alerted rows sc).threshold ≡ sc.threshold
unfolding open_each
open_each-threshold now alerted [] sc = refl
open_each-threshold now alerted (hb ∷ rows) sc =
    let next = open_stale now (alerted hb.host) hb sc in
    open_each-threshold now alerted rows next ∙ open_stale-threshold now (alerted hb.host) hb sc

resolve_recovered-threshold :
    (now : ℕ) (hb : HeartbeatRow) (sc : StalenessChecker)
    → (resolve_recovered now hb sc).threshold ≡ sc.threshold
unfolding resolve_recovered
resolve_recovered-threshold now hb sc =
    ground (arith, Option-cases (open_of (monitor_name hb.host) sc.store.tables.incidents))

resolve_each-Swept :
    (now threshold : ℕ) (rows : List HeartbeatRow) (sc : StalenessChecker)
    → sc.threshold ≡ threshold
    → Watched sc.store
    → Swept 0
        (λ hb. not (is_silent now threshold hb))
        rows
        sc.store
        (resolve_each_recovered now rows sc).store
unfolding resolve_each_recovered
resolve_each-Swept now threshold [] sc same w = record { watched = w; counts = λ j. refl }
resolve_each-Swept now threshold (hb ∷ rows) sc same w =
    let next = resolve_recovered now hb sc in
    let same' : next.threshold ≡ threshold = resolve_recovered-threshold now hb sc ∙ same in
    elim (Bool-cases (is_silent now threshold hb)) [
      | inl silent ↦
          let skipped : next ≡ sc = unfold resolve_recovered in ground (arith, silent, same) in
          let rest = resolve_each-Swept now threshold rows sc same w in
          record {
            watched = rw (skipped, resolve_each_recovered) rest.watched;
            counts =
                λ j. rw (skipped, resolve_each_recovered) (ground (arith, silent, rest.counts j));
          }
      | inr heard ↦
          let first = resolve_recovered-Leaves now hb sc w (rw same heard) in
          let rest = resolve_each-Swept now threshold rows next same' first.watched in
          record {
            watched = rest.watched;
            counts = λ j. ground (arith, heard, first.counts j, rest.counts j);
          }
    ]

-- If no statement fails, a check succeeds and keeps the invariant. After it, a monitor that is named
-- by an agent heard within the threshold has no open incident, any other that is named by a stale
-- agent has one, and the number of open incidents of all others is as before.
pub check_lem :
    (now : ℕ) (alerted : String → ℕ) (rows : List HeartbeatRow) (sc : StalenessChecker)
    → Watched sc.store
    → ((check now alerted rows sc).0 ≡ true)
      × Watched (check now alerted rows sc).1.store
      × ((j : String)
          → open_count j (check now alerted rows sc).1.store.tables.incidents ≡ (
              if is_named (λ hb. not (is_silent now sc.threshold hb)) j rows
              then 0
              else if is_named (is_stale_at now sc.threshold) j rows
              then 1
              else open_count j sc.store.tables.incidents))
unfolding check check_recovered get_stale_agents get_all_heartbeats
check_lem now alerted rows sc w =
    let read : Store = record sc.store { calls = sc.store.calls + 1 } in
    let w1 : Watched read = record {
      never_fails = w.never_fails;
      ids = w.ids;
      at_most_one = w.at_most_one;
    } in
    let stale = keep_if (is_stale_at now sc.threshold) rows in
    let sc1 : StalenessChecker = record sc { store = read } in
    let sc2 = open_each now alerted stale sc1 in
    let opened = open_each-Swept now alerted stale sc1 w1 in
    let w2 = opened.watched in
    let read2 : Store = record sc2.store { calls = sc2.store.calls + 1 } in
    let w3 : Watched read2 = record {
      never_fails = w2.never_fails;
      ids = w2.ids;
      at_most_one = w2.at_most_one;
    } in
    let sc3 : StalenessChecker = record sc2 { store = read2 } in
    let closed =
      resolve_each-Swept now sc.threshold rows sc3 (open_each-threshold now alerted stale sc1) w3 in
    let result : check now alerted rows sc ≡ (true, resolve_each_recovered now rows sc3) =
      ground (arith, w.never_fails sc.store.calls, w2.never_fails sc2.store.calls) in
    rw result (
      refl,
      closed.watched,
      λ j. ground (
        arith,
        closed.counts j,
        opened.counts j,
        is_named-keep_if (is_stale_at now sc.threshold) j rows,
      ),
    )
