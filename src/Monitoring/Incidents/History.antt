-- ===== src/Monitoring/Incidents/History.antt =====
-- What a row of incidents says of the occurrences so far (monitoring_agent/store.py).
use agent_bakery.Prelude.{
  ℕ, suc, ◌<◌, String, ◌≡◌, refl, Option, none, some, List, [], ◌∷◌, arith, str_eq, eq_iff,
  if◌then◌else◌,
}
use agent_bakery.Prelude.Dict.{Dict, lookup, lookup-insert}
use agent_bakery.Monitoring.Incidents.{
  Row, Incidents, Report, no_incidents, upsert, update, mark_alert_failed, clear_alert_failed,
}

abbrev pub map_row : (Row → Row) → Option Row → Option Row
map_row f none = none
map_row f (some row) = some (f row)

pub lookup-update :
    (k j : String) (f : Row → Row) (rows : Dict Row)
    → lookup j (update k f rows) ≡ (if str_eq k j then map_row f (lookup j rows) else lookup j rows)
lookup-update k j f [] = ground arith
lookup-update k j f ((i, row) ∷ rows) =
    ground (arith, eq_iff k j, eq_iff i k, eq_iff i j, lookup-update k j f rows)

-- The writes of the triage, the latest first.
pub data Write : Type 0 where
  report : String → Report → ℕ → Write
  mark : String → Write
  clear : String → Write

unfoldable pub after : List Write → Incidents
after [] = no_incidents
after (report k r now ∷ ws) = (upsert k r now (after ws)).1
after (mark k ∷ ws) = mark_alert_failed k (after ws)
after (clear k ∷ ws) = clear_alert_failed k (after ws)

-- The specification: how often a key was reported, and when last.
unfoldable pub reports : String → List Write → ℕ
reports key [] = 0
reports key (report k r now ∷ ws) = if str_eq k key then suc (reports key ws) else reports key ws
reports key (mark k ∷ ws) = reports key ws
reports key (clear k ∷ ws) = reports key ws

unfoldable pub last_report : String → List Write → ℕ
last_report key [] = 0
last_report key (report k r now ∷ ws) = if str_eq k key then now else last_report key ws
last_report key (mark k ∷ ws) = last_report key ws
last_report key (clear k ∷ ws) = last_report key ws

abbrev pub Counts : Option Row → ℕ → ℕ → Type 0
Counts none n last = n ≡ 0
Counts (some row) n last = (row.count ≡ n) × (0 < n) × (row.last_seen ≡ last)

-- After any history, a key has a row exactly when it was reported, and the row counts its reports and
-- holds the time of the last; marking and clearing alerts changes neither, and no other key's.
pub after-Counts :
    (key : String) (ws : List Write)
    → Counts (lookup key (after ws).rows) (reports key ws) (last_report key ws)
unfolding after reports last_report upsert mark_alert_failed clear_alert_failed
after-Counts key [] = refl
after-Counts key (report k r now ∷ ws) =
    rw lookup-insert (ground (arith, eq_iff k key, after-Counts key ws))
after-Counts key (mark k ∷ ws) =
    rw lookup-update (ground (arith, eq_iff k key, after-Counts key ws))
after-Counts key (clear k ∷ ws) =
    rw lookup-update (ground (arith, eq_iff k key, after-Counts key ws))
