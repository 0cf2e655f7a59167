-- ===== src/Monitoring/Triage.antt =====
-- The triage graph of monitoring_agent/graph.py: ingest, classify, dedup, decide, notify, and
-- `make_dedup_key` of monitoring_agent/store.py.
pub mod Decision
pub mod Delivery
pub mod Answer
pub mod Prompt
use agent_bakery.Prelude.{
  ℕ, zero, suc, ◌+◌, ◌*◌, String, Bool, true, false, not, ◌&&◌, ◌||◌, Option, none, some, List, [],
  ◌∷◌, ltb, str_eq, if◌then◌else◌,
}
use agent_bakery.Prelude.Int.{ℤ, pos, ltb_ℤ}
use agent_bakery.Prelude.Dict.{Dict}
use agent_bakery.Prelude.Text.{f_string, show}
use agent_bakery.Monitoring.Signal.{Signal}
use agent_bakery.Monitoring.Triage.Answer.{
  Json, null, text, scalar, container, Parsed, is_truthy, shown_json, or_default, MetaValue, number,
  json,
}
use agent_bakery.Monitoring.Incidents.{
  Incident, Incidents, Report, upsert, mark_alert_failed, clear_alert_failed,
}

pub record Alert : Type 0 where
  pub agent : String
  pub severity : String
  pub title : String
  pub body : String
  pub dedup_key : String
  pub url : Option String
  pub meta : Dict MetaValue

-- What the graph is built with. `ask` is `extract_json` of the model's completion, `none` where either
-- raises; `publish` says whether the n-th attempt to publish an alert is delivered, and `digest` is
-- the first 32 hex digits of SHA-256.
pub record Deps : Type 0 where
  pub ask : String → Option Parsed
  pub publish : Alert → ℕ → Bool
  pub digest : String → String
  pub agent_name : String
  pub dedup_window_minutes : ℕ
  pub notify_max_attempts : ℕ

abbrev pub is_valid_severity : String → Bool
is_valid_severity s = str_eq s "info" || (str_eq s "warning" || str_eq s "critical")

-- `s[:n]`
unfoldable pub prefix : ℕ → String → String
prefix zero s = ""
prefix (suc n) String.[] = ""
prefix (suc n) (String.◌∷◌ c s) = String.◌∷◌ c (prefix n s)

abbrev pub max_title_chars : ℕ
max_title_chars = 500

abbrev pub max_body_chars : ℕ
max_body_chars = 4000

-- The user message, with the delimiters that fence the untrusted text.
unfoldable pub user_prompt : String → String → Signal → String
user_prompt open_mark close_mark sig = f_string (
    "source: "
    ∷ sig.source
    ∷ "\nsuggested_severity: "
    ∷ sig.suggested_severity
    ∷ "\n"
    ∷ open_mark
    ∷ "\ntitle: "
    ∷ prefix max_title_chars sig.title
    ∷ "\ndetails:\n"
    ∷ prefix max_body_chars sig.body
    ∷ "\n"
    ∷ close_mark
    ∷ [])

pub record Classified : Type 0 where
  pub severity : String
  pub category : Json
  pub hypothesis : Json

abbrev no_answer : Parsed
no_answer = record { severity = null; category = null; hypothesis = null }

abbrev or_no_answer : Option Parsed → Parsed
or_no_answer none = no_answer
or_no_answer (some parsed) = parsed

abbrev fallback_severity : String → String
fallback_severity suggested = if is_valid_severity suggested then suggested else "warning"

-- `none` is the TypeError of `severity not in _VALID_SEVERITY`, a set, on a list or an object.
abbrev pub chosen_severity : Json → String → Option String
chosen_severity null suggested = some (fallback_severity suggested)
chosen_severity (text s) suggested =
    some (if is_valid_severity s then s else fallback_severity suggested)
chosen_severity (scalar truth shown) suggested = some (fallback_severity suggested)
chosen_severity (container truth shown) suggested = none

-- What the model answers to a signal.
unfoldable pub parsed_of : Deps → String → String → Signal → Parsed
unfolding user_prompt
parsed_of deps open_mark close_mark sig =
    or_no_answer (deps.ask (user_prompt open_mark close_mark sig))

infixl 5 ◌>>=◌
abbrev ◌>>=◌ : {A B : Type 0} → Option A → (A → Option B) → Option B
none >>= f = none
some a >>= f = f a

-- The severity is looked up after the `try`, so its TypeError, `none`, leaves the node.
unfoldable pub classify : Deps → String → String → Signal → Option Classified
unfolding parsed_of
classify deps open_mark close_mark sig = do
  let parsed = parsed_of deps open_mark close_mark sig
  severity ← chosen_severity parsed.severity sig.suggested_severity
  some (record {
    severity = severity;
    category = or_default parsed.category sig.source;
    hypothesis = or_default parsed.hypothesis "";
  })

-- `sha256(f"{source}\x00{fingerprint}")[:32]`
unfoldable pub make_dedup_key : Deps → String → String → String
make_dedup_key deps source fingerprint = deps.digest (f_string (source ∷ "\0" ∷ fingerprint ∷ []))

abbrev pub with_hypothesis : String → Json → String
with_hypothesis body hypothesis =
    if is_truthy hypothesis
    then f_string (body ∷ "\n\nhypothesis: " ∷ shown_json hypothesis ∷ [])
    else body

-- In microseconds.
abbrev pub window : Deps → ℤ
window deps = pos (deps.dedup_window_minutes * 60 * 1000000)

abbrev pub is_within : Option ℤ → ℤ → Bool
is_within none w = false
is_within (some since) w = ltb_ℤ since w

abbrev pub is_suppressed : Deps → Incident → Bool
is_suppressed deps incident = not incident.is_new && is_within incident.since_prev (window deps)

-- The upsert, and whether the occurrence is suppressed.
unfoldable pub dedup : Deps → Signal → Classified → ℕ → Incidents → Incident × Bool × Incidents
dedup deps sig c now t =
    let (incident, t') =
      upsert (make_dedup_key deps sig.source sig.fingerprint)
        (record {
          source = sig.source;
          severity = c.severity;
          title = sig.title;
          body = with_hypothesis sig.body c.hypothesis;
        })
        now t in
    (incident, is_suppressed deps incident, t')

-- True is the action "alert", false "suppress".
unfoldable pub decide : String → String → Bool → Bool
decide status severity suppressed =
    if str_eq status "alert_failed"
    then true
    else if suppressed && not (str_eq severity "critical")
    then false
    else true

unfoldable pub to_alert : Deps → Signal → Classified → Incident → Alert
to_alert deps sig c incident =
    let body = with_hypothesis sig.body c.hypothesis in
    record {
      agent = deps.agent_name;
      severity = c.severity;
      title = sig.title;
      body =
          if ltb 1 incident.row.count
          then f_string (body ∷ "\n\noccurrences: " ∷ show incident.row.count ∷ [])
          else body;
      dedup_key = incident.dedup_key;
      url = sig.url;
      meta =
          ("incident_id", number incident.row.id)
          ∷ ("category", json c.category)
          ∷ ("source", json (text sig.source))
          ∷ ("count", number incident.row.count)
          ∷ [];
    }

-- The `for` loop, with the attempts left and the number of the next: whether one was delivered, and
-- how many were made.
unfoldable pub publish_loop : (ℕ → Bool) → ℕ → ℕ → Bool × ℕ
publish_loop delivers zero attempt = (false, 0)
publish_loop delivers (suc left) attempt =
    let (done, made) = publish_loop delivers left (suc attempt) in
    if delivers attempt then (true, 1) else (done, suc made)

-- `max(1, notify_max_attempts)`
abbrev pub attempts : ℕ → ℕ
attempts zero = 1
attempts (suc n) = suc n

-- `raised` is a pass that ended in the TypeError of `classify`.
pub record Outcome : Type 0 where
  pub raised : Bool
  pub alert : Bool
  pub alerted : Bool
  pub alert_failed : Bool
  pub published : ℕ

unfoldable pub settle : Incident → Bool → ℕ → Incidents → Outcome × Incidents
settle incident true made t = (
  record { raised = false; alert = true; alerted = true; alert_failed = false; published = made },
  if str_eq incident.row.status "alert_failed" then clear_alert_failed incident.dedup_key t else t,
)
settle incident false made t = (
  record { raised = false; alert = true; alerted = false; alert_failed = true; published = made },
  mark_alert_failed incident.dedup_key t,
)

unfoldable pub notify : Deps → Signal → Classified → Incident → Incidents → Outcome × Incidents
unfolding settle
notify deps sig c incident t =
    let (done, made) =
      publish_loop (deps.publish (to_alert deps sig c incident)) (attempts deps.notify_max_attempts)
        1 in
    settle incident done made t

-- `_route`, and the notify node.
unfoldable pub route :
    Deps → Signal → Classified → Incident → Bool → Incidents → Outcome × Incidents
route deps sig c incident true t = notify deps sig c incident t
route deps sig c incident false t = (
  record { raised = false; alert = false; alerted = false; alert_failed = false; published = 0 },
  t,
)

-- The nodes after `classify`; an error of `classify` ends the pass before the store is reached.
unfoldable pub triage_classified :
    Deps → Signal → Option Classified → ℕ → Incidents → Outcome × Incidents
unfolding dedup route
triage_classified deps sig none now t = (
  record { raised = true; alert = false; alerted = false; alert_failed = false; published = 0 },
  t,
)
triage_classified deps sig (some c) now t =
    let (incident, suppressed, t') = dedup deps sig c now t in
    route deps sig c incident (decide incident.row.status c.severity suppressed) t'

-- The compiled graph, on one signal.
unfoldable pub triage : Deps → String → String → Signal → ℕ → Incidents → Outcome × Incidents
unfolding triage_classified
triage deps open_mark close_mark sig now t =
    triage_classified deps sig (classify deps open_mark close_mark sig) now t
