-- ===== src/Dashboard/Incidents/Tests.antt =====
-- Runs of the model of the operators' decisions on incidents, and its theorem at concrete inputs.
use agent_bakery.Prelude.{ℕ, ◌≡◌, refl, false, some, none, Option, String, List, [], ◌∷◌}
use agent_bakery.Prelude.Chars.{Chars, strip}
use agent_bakery.Prelude.Text.{codes}
use agent_bakery.Auth.Tokens.{Principal}
use agent_bakery.Dashboard.Upstream.{payload}
use agent_bakery.Dashboard.Incidents.{
  Db, is_triage_status, set_incident_triage, incident_triage_map, incidents_context, clean_note,
  decide_incident, action_incident_triage,
}
use agent_bakery.Dashboard.Incidents.Overlay.{Action, badge, step, after}

abbrev operator_of : String → Principal
operator_of tenant = record { sub = "ann"; tenant = tenant; role = "viewer"; name = none }

abbrev action : String → Chars → String → ℕ → Action ℕ
action tenant key status now = record {
  principal = operator_of tenant;
  form = record { dedup_key = key; status = status; note = some (codes " seen ") };
  now = now;
  later = now;
  audit_fails = false;
  answer = none;
}

-- The latest first: another tenant's decision, one that is refused, and two of the tenant.
abbrev actions : List (Action ℕ)
actions =
    action "qa" (codes "k1") "open" 40
    ∷ action "ops" (codes "k1") "closed" 30
    ∷ action "ops" (codes " k1 ") "resolved" 20
    ∷ action "ops" (codes "k1") "snoozed" 10
    ∷ []

abbrev db : Db
db = record { triage = []; log = record { rows = []; next_id = 1 } }

abbrev found : Option (List ℕ)
found = some (1 ∷ [])

resolved_shown :
    badge
      (codes "k1")
      (incidents_context (some (payload found)) (after actions (some db)) (some "ops")).overlay
    ≡ some
        (record { status = "resolved"; note = some (codes "seen"); actor = "ann"; updated_at = 20 })
unfolding incidents_context incident_triage_map after step action_incident_triage decide_incident
    set_incident_triage is_triage_status clean_note strip
resolved_shown = refl
