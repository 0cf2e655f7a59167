-- ===== src/Monitoring/Incidents.antt =====
-- `IncidentStore` of monitoring_agent/store.py: the table incidents, one row per dedup key. Times are
-- in microseconds. A statement is atomic; `upsert` is two of them.
pub mod History
pub mod Resolution
pub mod Race
use agent_bakery.Prelude.{
  ℕ, suc, ◌+◌, ◌*◌, ◌-◌, String, Bool, true, false, not, ◌&&◌, Option, none, some, List, [], ◌∷◌,
  ltb, ◌==◌, length, str_eq, if◌then◌else◌,
}
use agent_bakery.Prelude.Int.{ℤ, sub_ℕ}
use agent_bakery.Prelude.Dict.{Dict, lookup, insert}
use agent_bakery.Monitoring.ProbeState.{days}

pub record Row : Type 0 where
  pub id : ℕ
  pub source : String
  pub severity : String
  pub title : String
  pub body : String
  pub count : ℕ
  pub first_seen : ℕ
  pub last_seen : ℕ
  pub status : String

-- The rows by dedup key, and the identity column's sequence, which every INSERT draws from.
pub record Incidents : Type 0 where
  pub rows : Dict Row
  pub next_id : ℕ

abbrev pub no_incidents : Incidents
no_incidents = record { rows = []; next_id = 1 }

-- The values of an INSERT.
pub record Report : Type 0 where
  pub source : String
  pub severity : String
  pub title : String
  pub body : String

pub record Incident : Type 0 where
  pub dedup_key : String
  pub row : Row
  pub is_new : Bool
  -- in microseconds
  pub since_prev : Option ℤ

-- The default columns of a new row.
unfoldable pub opened : ℕ → Report → ℕ → Row
opened id r now = record {
  id = id;
  source = r.source;
  severity = r.severity;
  title = r.title;
  body = r.body;
  count = 1;
  first_seen = now;
  last_seen = now;
  status = "open";
}

-- `DO UPDATE SET`
unfoldable pub bumped : Row → Report → ℕ → Row
bumped row r now = record row {
  count = row.count + 1;
  last_seen = now;
  severity = r.severity;
  title = r.title;
  body = r.body;
  status = if str_eq row.status "resolved" then "open" else row.status;
}

unfoldable pub written : Option Row → ℕ → Report → ℕ → Row
unfolding opened bumped
written none id r now = opened id r now
written (some row) id r now = bumped row r now

-- `SELECT last_seen`
abbrev pub select_last_seen : String → Incidents → Option ℕ
select_last_seen key t = elim (lookup key t.rows) [ none ↦ none | some row ↦ some row.last_seen ]

-- `INSERT … ON CONFLICT … RETURNING *`
unfoldable pub insert_or_bump : String → Report → ℕ → Incidents → Row × Incidents
unfolding written
insert_or_bump key r now t =
    let row = written (lookup key t.rows) t.next_id r now in
    (row, record { rows = insert key row t.rows; next_id = suc t.next_id })

-- What `upsert` makes of the two statements' results.
unfoldable pub to_incident : String → Option ℕ → Row → Incident
to_incident key none row = record { dedup_key = key; row = row; is_new = true; since_prev = none }
to_incident key (some prev) row = record {
  dedup_key = key;
  row = row;
  is_new = false;
  since_prev = some (sub_ℕ row.last_seen prev);
}

-- `upsert`, with no other statement between its two.
unfoldable pub upsert : String → Report → ℕ → Incidents → Incident × Incidents
unfolding insert_or_bump to_incident
upsert key r now t =
    let prev = select_last_seen key t in
    let (row, t') = insert_or_bump key r now t in (to_incident key prev row, t')

-- `UPDATE … WHERE dedup_key = key`
abbrev pub update : String → (Row → Row) → Dict Row → Dict Row
update key f [] = []
update key f ((k, row) ∷ rows) =
    if str_eq k key then (k, f row) ∷ rows else (k, row) ∷ update key f rows

unfoldable pub mark_alert_failed : String → Incidents → Incidents
mark_alert_failed key t = record t {
  rows = update key (λ row. record row { status = "alert_failed" }) t.rows;
}

abbrev pub cleared : Row → Row
cleared row = record row {
  status = if str_eq row.status "alert_failed" then "open" else row.status;
}

unfoldable pub clear_alert_failed : String → Incidents → Incidents
clear_alert_failed key t = record t { rows = update key cleared t.rows }

-- `status = 'resolved' AND last_seen < now() - make_interval(days => n)`
abbrev pub is_prunable : ℕ → ℕ → Row → Bool
is_prunable n now row = str_eq row.status "resolved" && ltb (row.last_seen + days n) now

unfoldable pub delete_prunable : ℕ → ℕ → Dict Row → Dict Row
delete_prunable n now [] = []
delete_prunable n now ((k, row) ∷ rows) =
    let rest = delete_prunable n now rows in if is_prunable n now row then rest else (k, row) ∷ rest

unfoldable pub prune : ℕ → ℕ → Incidents → ℕ × Incidents
unfolding delete_prunable
prune retention_days now t = if retention_days == 0 then (0, t) else (
  length t.rows - length (delete_prunable retention_days now t.rows),
  record t { rows = delete_prunable retention_days now t.rows },
)

count_open : String → Dict Row → ℕ
count_open source [] = 0
count_open source ((k, row) ∷ rows) =
    (if str_eq row.status "open" && str_eq row.source source then 1 else 0) + count_open source rows

unfoldable pub open_count_by_source : String → Incidents → ℕ
unfolding count_open
open_count_by_source source t = count_open source t.rows
