-- ===== src/Dashboard/Incidents.antt =====
-- The operators' decisions on incidents: the table `incident_triage` of dashboard/store.py, the page of
-- incidents of dashboard/views.py, and the action of dashboard/api.py. A time is in whole microseconds. A
-- statement that the database refuses makes the action raise, and is not modelled.
mod Tests
pub mod Overlay
use agent_bakery.Prelude.{
  ℕ, Bool, true, false, not, ◌&&◌, ◌||◌, Option, none, some, String, List, [], ◌∷◌, take, str_eq,
  if◌then◌else◌,
}
use agent_bakery.Prelude.Chars.{Chars, strip, is_space, same_text}
use agent_bakery.Prelude.Text.{codes}
use agent_bakery.Auth.Tokens.{Principal}
use agent_bakery.Auth.Webhook.{is_empty}
use agent_bakery.Audit.{AuditLog, append}
use agent_bakery.Dashboard.Upstream.{Answer, payload, unavailable}
use agent_bakery.Dashboard.Tokens.Routes.{Reply, page, http_error}

-- `INCIDENT_TRIAGE_STATUSES`
unfoldable pub is_triage_status : String → Bool
is_triage_status status =
    str_eq status "acknowledged"
    || (str_eq status "resolved" || (str_eq status "snoozed" || str_eq status "open"))

-- The primary key of `incident_triage`, and the other columns.
pub record TriageKey : Type 0 where
  pub tenant_id : String
  pub dedup_key : Chars

pub record Decision : Type 0 where
  pub status : String
  pub note : Option Chars
  pub actor : String
  pub updated_at : ℕ

abbrev pub same_incident : TriageKey → TriageKey → Bool
same_incident j k = str_eq j.tenant_id k.tenant_id && same_text j.dedup_key k.dedup_key

-- The insert or update, where there is a pool.
unfoldable pub set_incident_triage :
    TriageKey → Decision → List (TriageKey × Decision) → List (TriageKey × Decision)
set_incident_triage k d [] = (k, d) ∷ []
set_incident_triage k d ((j, old) ∷ rows) =
    if same_incident j k then (j, d) ∷ rows else (j, old) ∷ set_incident_triage k d rows

unfoldable pub incident_triage_map : String → List (TriageKey × Decision) → List (Chars × Decision)
incident_triage_map tenant [] = []
incident_triage_map tenant ((j, d) ∷ rows) =
    if str_eq j.tenant_id tenant
    then (j.dedup_key, d) ∷ incident_triage_map tenant rows
    else incident_triage_map tenant rows

-- The tables that the action writes.
pub record Db : Type 0 where
  pub triage : List (TriageKey × Decision)
  pub log : AuditLog

-- What the page is rendered from. The incidents are as the monitoring agent sends them.
pub record Context (A : Type 0) : Type 0 where
  pub reason : Option String
  pub incidents : List A
  pub overlay : List (Chars × Decision)

abbrev pub overlay_of : Option Db → Option String → List (Chars × Decision)
overlay_of none tenant = []
overlay_of (some db) none = []
overlay_of (some db) (some tenant) = incident_triage_map tenant db.triage

module _ {A : Type 0} where
  abbrev pub or_no_incidents : Option (List A) → List A
  or_no_incidents none = []
  or_no_incidents (some incidents) = incidents

  -- `answer` is what the aggregator returns for the agent that has incidents, `none` where the registry
  -- has no such agent; its payload is `res.get("incidents")`.
  unfoldable pub incidents_context :
      Option (Answer (Option (List A))) → Option Db → Option String → Context A
  incidents_context none pool tenant = record {
    reason = some "no incidents-capable agent in registry";
    incidents = [];
    overlay = [];
  }
  incidents_context (some (unavailable reason)) pool tenant = record {
    reason = some reason;
    incidents = [];
    overlay = [];
  }
  incidents_context (some (payload found)) pool tenant = record {
    reason = none;
    incidents = or_no_incidents found;
    overlay = overlay_of pool tenant;
  }

-- `(note or "").strip()[:2000] or None`
abbrev pub or_no_note : Chars → Option Chars
or_no_note [] = none
or_no_note (c ∷ s) = some (c ∷ s)

abbrev pub note_text : Option Chars → Chars
note_text none = []
note_text (some note) = note

unfoldable pub clean_note : Option Chars → Option Chars
unfolding strip
clean_note note = or_no_note (take 2000 (strip is_space (note_text note)))

pub record TriageForm : Type 0 where
  pub dedup_key : Chars
  pub status : String
  pub note : Option Chars

-- The writes of the action, with the time of each; without a pool there is none.
unfoldable pub decide_incident : Bool → Principal → TriageForm → ℕ → ℕ → Option Db → Option Db
decide_incident audit_fails p form now later none = none
decide_incident audit_fails p form now later (some db) =
    let key = strip is_space form.dedup_key in
    some (record {
      triage =
          set_incident_triage (record { tenant_id = p.tenant; dedup_key = key })
            (record {
              status = form.status;
              note = clean_note form.note;
              actor = p.sub;
              updated_at = now;
            })
            db.triage;
      log =
          append audit_fails p.tenant
            (record {
              actor = codes p.sub;
              action = codes "incident-triage";
              resource = some key;
              metadata = ("status", codes form.status) ∷ [];
            })
            later db.log;
    })

unfoldable pub action_incident_triage :
    {A : Type 0}
    → Bool
    → Principal
    → TriageForm
    → ℕ
    → ℕ
    → Option (Answer (Option (List A)))
    → Option Db
    → Reply (Context A) × Option Db
action_incident_triage audit_fails p form now later answer pool =
    if not (is_triage_status form.status)
    then (http_error 400, pool)
    else if is_empty (strip is_space form.dedup_key)
    then (http_error 400, pool)
    else (let after = decide_incident audit_fails p form now later pool in
        (page (incidents_context answer after (some p.tenant)), after))
