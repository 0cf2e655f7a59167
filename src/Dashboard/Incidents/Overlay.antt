-- ===== src/Dashboard/Incidents/Overlay.antt =====
-- What the page of incidents shows after any sequence of decisions.
use agent_bakery.Prelude.{
  ℕ, Bool, true, not, ◌&&◌, ◌≡◌, refl, Option, none, some, String, List, [], ◌∷◌, str_eq,
  if◌then◌else◌,
}
use agent_bakery.Prelude.Chars.{Chars, strip, is_space, same_text, same_text_iff}
use agent_bakery.Auth.Tokens.{Principal}
use agent_bakery.Auth.Webhook.{is_empty}
use agent_bakery.Dashboard.Upstream.{Answer}
use agent_bakery.Dashboard.Tokens.Routes.{Reply}
use agent_bakery.Dashboard.Incidents.{
  is_triage_status, TriageKey, Decision, incident_triage_map, Db, Context, clean_note, TriageForm,
  action_incident_triage,
}

-- What the page shows of an incident.
abbrev pub badge : Chars → List (Chars × Decision) → Option Decision
badge key [] = none
badge key ((k, d) ∷ overlay) = if same_text k key then some d else badge key overlay

same_text_refl : (s : Chars) → same_text s s ≡ true
same_text_refl s = (same_text_iff s s).1 refl

-- An action: who takes it, the form, the times of its two writes, whether the audit fails, and what the
-- monitoring agent answers.
pub record Action (A : Type 0) : Type 0 where
  pub principal : Principal
  pub form : TriageForm
  pub now : ℕ
  pub later : ℕ
  pub audit_fails : Bool
  pub answer : Option (Answer (Option (List A)))

module _ {A : Type 0} where
  unfoldable pub step : Action A → Option Db → Option Db
  step a pool =
      (action_incident_triage a.audit_fails a.principal a.form a.now a.later a.answer pool).1

  -- The latest action stands first.
  unfoldable pub after : List (Action A) → Option Db → Option Db
  after [] pool = pool
  after (a ∷ actions) pool = step a (after actions pool)

  abbrev pub is_accepted : Action A → Bool
  is_accepted a = is_triage_status a.form.status && not (is_empty (strip is_space a.form.dedup_key))

  abbrev pub key_of : Action A → TriageKey
  key_of a = record { tenant_id = a.principal.tenant; dedup_key = strip is_space a.form.dedup_key }

  abbrev pub decision : Action A → Decision
  decision a = record {
    status = a.form.status;
    note = clean_note a.form.note;
    actor = a.principal.sub;
    updated_at = a.now;
  }

  -- The last decision that was accepted on an incident, or what was there before.
  abbrev pub last_decision : String → Chars → Option Decision → List (Action A) → Option Decision
  last_decision tenant key base [] = base
  last_decision tenant key base (a ∷ actions) =
      if is_accepted a && (str_eq a.principal.tenant tenant && same_text (key_of a).dedup_key key)
      then some (decision a)
      else last_decision tenant key base actions

  act : Action A → Option Db → Reply (Context A) × Option Db
  act a pool = action_incident_triage a.audit_fails a.principal a.form a.now a.later a.answer pool

  -- The table after some actions, and what it shows of an incident.
  abbrev Remembers : String → Chars → List (Action A) → Db → Type 0
  Remembers tenant key actions db =
      (db' : Db) × (after actions (some db) ≡ some db')
      × (badge key (incident_triage_map tenant db'.triage)
          ≡ last_decision tenant key (badge key (incident_triage_map tenant db.triage)) actions)
