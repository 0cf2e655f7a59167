-- ===== src/Monitoring/Triage/Decision.antt =====
-- Which occurrences the triage of monitoring_agent/graph.py pages, and which it suppresses.
use agent_bakery.Prelude.{
  ℕ, ◌+◌, ◌*◌, ◌<◌, String, ◌≡◌, ◌≢◌, ◌↔◌, refl, Bool, true, false, Option, none, some, arith,
  eq_iff, inl, inr, Option-cases,
}
use agent_bakery.Prelude.Dict.{lookup, insert}
use agent_bakery.Monitoring.Signal.{Signal}
use agent_bakery.Monitoring.Incidents.{
  Row, Incident, Incidents, Report, upsert, written, opened, bumped, insert_or_bump, to_incident,
}
use agent_bakery.Monitoring.Triage.Answer.{Json, null, text, scalar, container}
use agent_bakery.Monitoring.Triage.{
  Deps, parsed_of, chosen_severity, triage_classified, Classified, classify, make_dedup_key,
  with_hypothesis, dedup, decide, route, notify, settle, triage,
}

-- An occurrence is suppressed exactly when it is a repeat within the window, its severity is not
-- critical, and no page of its incident is outstanding.
pub decide_suppresses_iff :
    (status severity : String) (suppressed : Bool)
    → (decide status severity suppressed ≡ false)
      ↔ ((suppressed ≡ true) × (severity ≢ "critical") × (status ≢ "alert_failed"))
unfolding decide
decide_suppresses_iff status severity suppressed = (
  λ h. ground (arith, eq_iff severity "critical", eq_iff status "alert_failed"),
  λ h. ground (arith, eq_iff severity "critical", eq_iff status "alert_failed"),
)

abbrev pub key_of : Deps → Signal → String
key_of deps sig = make_dedup_key deps sig.source sig.fingerprint

-- The report that a signal makes of itself.
abbrev pub report_of : Signal → Classified → Report
report_of sig c = record {
  source = sig.source;
  severity = c.severity;
  title = sig.title;
  body = with_hypothesis sig.body c.hypothesis;
}

-- Within the window: less than so many minutes since an earlier time.
abbrev pub IsRecent : Deps → ℕ → ℕ → Type 0
IsRecent deps now earlier = now < earlier + deps.dedup_window_minutes * 60 * 1000000

-- What the dedup node does, in terms of the row that was there.
pub dedup_lem :
    (deps : Deps) (sig : Signal) (c : Classified) (now : ℕ) (t : Incidents)
    → let (incident, suppressed, t') = dedup deps sig c now t in
      let key = key_of deps sig in
      (incident.dedup_key ≡ key)
      × (incident.row ≡ written (lookup key t.rows) t.next_id (report_of sig c) now)
      × (t'.rows ≡ insert key incident.row t.rows)
      × (lookup key t.rows ≡ none → suppressed ≡ false)
      × ((row : Row)
          → lookup key t.rows ≡ some row
          → (suppressed ≡ true) ↔ IsRecent deps now row.last_seen)
unfolding dedup upsert insert_or_bump to_incident bumped opened
dedup_lem deps sig c now t = (
  ground arith,
  ground arith,
  ground arith,
  λ e. ground arith,
  λ row e. (λ h. ground arith, λ h. ground arith),
)

route-alert :
    (deps : Deps) (sig : Signal) (c : Classified) (incident : Incident) (b : Bool) (t : Incidents)
    → (route deps sig c incident b t).0.alert ≡ b
unfolding route notify settle
route-alert deps sig c incident true t = ground arith
route-alert deps sig c incident false t = refl

-- What makes an occurrence of an incident go unpaged.
abbrev pub Suppresses : Deps → Classified → ℕ → Option Row → Type 0
Suppresses deps c now none = ⊥
Suppresses deps c now (some row) =
    (c.severity ≢ "critical") × (row.status ≢ "alert_failed") × IsRecent deps now row.last_seen

written_alert_failed :
    (row : Row) (id : ℕ) (r : Report) (now : ℕ)
    → ((written (some row) id r now).status ≡ "alert_failed") ↔ (row.status ≡ "alert_failed")
unfolding written
written_alert_failed row id r now = (
  λ h. ground (arith, eq_iff row.status "resolved", eq_iff "open" "alert_failed"),
  λ h. ground (arith, eq_iff row.status "resolved", eq_iff "resolved" "alert_failed"),
)

-- A list or an object.
abbrev pub IsContainer : Json → Type 0
IsContainer null = ⊥
IsContainer (text s) = ⊥
IsContainer (scalar truth shown) = ⊥
IsContainer (container truth shown) = Unit

-- The model answers to a signal with a list or an object as its severity.
abbrev pub HasBadSeverity : Deps → String → String → Signal → Type 0
HasBadSeverity deps open_mark close_mark sig =
    IsContainer (parsed_of deps open_mark close_mark sig).severity

chosen_severity-none_iff :
    (value : Json) (suggested : String)
    → (chosen_severity value suggested ≡ none) ↔ IsContainer value
chosen_severity-none_iff null suggested = (λ h. cc, λ h. absurd h)
chosen_severity-none_iff (text s) suggested = (λ h. cc, λ h. absurd h)
chosen_severity-none_iff (scalar truth shown) suggested = (λ h. cc, λ h. absurd h)
chosen_severity-none_iff (container truth shown) suggested = (λ h. tt, λ h. refl)

pub classify-none_iff :
    (deps : Deps) (open_mark close_mark : String) (sig : Signal)
    → (classify deps open_mark close_mark sig ≡ none) ↔ HasBadSeverity deps open_mark close_mark sig
unfolding classify
classify-none_iff deps open_mark close_mark sig =
    let value = (parsed_of deps open_mark close_mark sig).severity in
    let (raises, bad) = chosen_severity-none_iff value sig.suggested_severity in
    elim (Option-cases (chosen_severity value sig.suggested_severity)) [
      | inl e ↦ (λ h. raises e, λ h. ground (arith, e))
      | inr (severity, e) ↦ (λ h. ground (arith, h, e), λ h. ground (arith, bad h, e))
    ]

route-raised :
    (deps : Deps) (sig : Signal) (c : Classified) (incident : Incident) (b : Bool) (t : Incidents)
    → (route deps sig c incident b t).0.raised ≡ false
unfolding route notify settle
route-raised deps sig c incident true t = ground arith
route-raised deps sig c incident false t = refl

-- The nodes after `classify` page a signal unless something makes it go unpaged.
pub classified_pages_iff :
    (deps : Deps) (sig : Signal) (c : Classified) (now : ℕ) (t : Incidents)
    → ((triage_classified deps sig (some c) now t).0.alert ≡ false)
      ↔ Suppresses deps c now (lookup (key_of deps sig) t.rows)
unfolding triage_classified
classified_pages_iff deps sig c now t = go (lookup (key_of deps sig) t.rows) refl
  where
    d : Incident × Bool × Incidents
    d = dedup deps sig c now t

    go :
        (o : Option Row)
        → lookup (key_of deps sig) t.rows ≡ o
        → ((triage_classified deps sig (some c) now t).0.alert ≡ false) ↔ Suppresses deps c now o
    go none e =
        let (k, r, rows, fresh, recent) = dedup_lem deps sig c now t in
        let paged = route-alert deps sig c d.0 (decide d.0.row.status c.severity d.1) d.2 in
        let decided = decide_suppresses_iff d.0.row.status c.severity d.1 in
        (λ h. ground (arith, paged, decided, fresh e), λ h. absurd h)
    go (some row) e =
        let (k, r, rows, fresh, recent) = dedup_lem deps sig c now t in
        let paged = route-alert deps sig c d.0 (decide d.0.row.status c.severity d.1) d.2 in
        let decided = decide_suppresses_iff d.0.row.status c.severity d.1 in
        let status = written_alert_failed row t.next_id (report_of sig c) now in
        let same : d.0.row ≡ written (some row) t.next_id (report_of sig c) now = cc (r, e) in
        (
          λ h. ground (arith, paged, decided, recent row e, status, same),
          λ h. ground (arith, paged, decided, recent row e, status, same),
        )

-- A pass raises exactly when the model answers with a list or an object as the severity, and then it
-- pages nothing and writes nothing. Every other pass pages its signal unless the incident was already
-- there, was last seen within the window, has no page outstanding, and the signal is not classified
-- as critical; and only then is it silent.
pub triage_pages_iff :
    (deps : Deps) (open_mark close_mark : String) (sig : Signal) (now : ℕ) (t : Incidents)
    → let (outcome, t') = triage deps open_mark close_mark sig now t in
      ((outcome.raised ≡ true) ↔ HasBadSeverity deps open_mark close_mark sig)
      × (outcome.raised ≡ true → (outcome.alert ≡ false) × (t' ≡ t))
      × ((c : Classified)
          → classify deps open_mark close_mark sig ≡ some c
          → (outcome.alert ≡ false) ↔ Suppresses deps c now (lookup (key_of deps sig) t.rows))
unfolding triage triage_classified
triage_pages_iff deps open_mark close_mark sig now t =
    go (classify deps open_mark close_mark sig) refl
  where
    go :
        (o : Option Classified)
        → classify deps open_mark close_mark sig ≡ o
        → let (outcome, t') = triage_classified deps sig o now t in
          ((outcome.raised ≡ true) ↔ HasBadSeverity deps open_mark close_mark sig)
          × (outcome.raised ≡ true → (outcome.alert ≡ false) × (t' ≡ t))
          × ((c : Classified)
              → o ≡ some c
              → (outcome.alert ≡ false) ↔ Suppresses deps c now (lookup (key_of deps sig) t.rows))
    go none e =
        let (bad, raises) = classify-none_iff deps open_mark close_mark sig in
        ((λ h. bad e, λ h. refl), λ h. (refl, refl), λ c h. cc)
    go (some c) e =
        let (bad, raises) = classify-none_iff deps open_mark close_mark sig in
        let d = dedup deps sig c now t in
        let fine = route-raised deps sig c d.0 (decide d.0.row.status c.severity d.1) d.2 in
        (
          (λ h. ground (arith, h, fine), λ h. ground (arith, raises h, e)),
          λ h. ground (arith, h, fine),
          λ c' h. let same : c' ≡ c = cc h in rw same (classified_pages_iff deps sig c now t),
        )
