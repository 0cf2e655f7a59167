-- ===== src/Monitoring/Triage/Delivery.antt =====
-- The delivery of pages in monitoring_agent/graph.py: bounded retries, and a page that failed is made
-- up for by the next pass.
use agent_bakery.Prelude.{
  ◌⊎◌, ℕ, zero, suc, ◌+◌, ◌≤◌, Bool-cases, Option-cases, inl, inr, String, ◌≡◌, ◌≢◌, refl, ap, ◌∙◌,
  Bool, true, false, Option, none, some, List, [], ◌∷◌, arith, str_eq, eq_iff,
}
use native.Mathlib.Nat.{add-zero, add-suc, suc-add}
use agent_bakery.Prelude.Dict.{Dict, lookup, lookup-insert}
use agent_bakery.Monitoring.Signal.{Signal}
use agent_bakery.Monitoring.Incidents.{
  Row, Incident, Incidents, mark_alert_failed, clear_alert_failed, cleared, update,
}
use agent_bakery.Monitoring.Incidents.History.{lookup-update}
use agent_bakery.Monitoring.Triage.{
  Deps, Classified, classify, publish_loop, dedup, decide, route, notify, settle, triage_classified,
  triage,
}
use agent_bakery.Monitoring.Triage.Decision.{
  key_of, dedup_lem, Suppresses, HasBadSeverity, classify-none_iff, triage_pages_iff,
}

-- Every attempt from one number on, so many of them, fails.
abbrev pub AllFail : (ℕ → Bool) → ℕ → ℕ → Type 0
AllFail delivers first zero = Unit
AllFail delivers first (suc n) = (delivers first ≡ false) × AllFail delivers (suc first) n

-- The retry loop never makes more attempts than it may. Either it stops at the first attempt that is
-- delivered, or it makes all of them and all of them fail.
pub publish_loop_exact :
    (delivers : ℕ → Bool) (left first : ℕ)
    → let (done, made) = publish_loop delivers left first in
      (made ≤ left)
      × (((done ≡ true)
            × ((k : ℕ) × (made ≡ suc k) × AllFail delivers first k × (delivers (first + k) ≡ true)))
          ⊎ ((done ≡ false) × (made ≡ left) × AllFail delivers first left))
unfolding publish_loop
publish_loop_exact delivers zero first = (omega arith, inr (refl, refl, tt))
publish_loop_exact delivers (suc left) first =
    let (m, ended) = publish_loop_exact delivers left (suc first) in
    elim (Bool-cases (delivers first)) [
      | inl e ↦ (ground (arith, m), inl (ground arith, (0, ground arith, tt, rw add-zero e)))
      | inr e ↦ (
        ground (arith, m),
        elim ended [
          | inl (d, (k, p, q, r)) ↦
              inl (ground arith, (suc k, ground (arith, p), (e, q), rw (add-suc, ← suc-add) r))
          | inr (d, p, q) ↦ inr (ground arith, ground (arith, p), (e, q))
        ],
      )
    ]

abbrev pub status_of : Option Row → Option String
status_of none = none
status_of (some row) = some row.status

abbrev pub status_at : String → Incidents → Option String
status_at key t = status_of (lookup key t.rows)

-- An update of one key's row, at that key.
lookup-update_self :
    (key : String) (f : Row → Row) (row : Row) (rows : Dict Row)
    → lookup key rows ≡ some row
    → lookup key (update key f rows) ≡ some (f row)
lookup-update_self key f row rows h = lookup-update key key f rows ∙ ground (arith, eq_iff key key)

settle_status :
    (incident : Incident) (done : Bool) (made : ℕ) (t : Incidents)
    → lookup incident.dedup_key t.rows ≡ some incident.row
    → let (outcome, t') = settle incident done made t in
      (outcome.alert_failed ≡ true → status_at incident.dedup_key t' ≡ some "alert_failed")
      × (outcome.alerted ≡ true → status_at incident.dedup_key t' ≢ some "alert_failed")
unfolding settle mark_alert_failed clear_alert_failed
settle_status incident true made t h = (
  λ e. cc,
  λ e. elim (Bool-cases (str_eq incident.row.status "alert_failed")) [
    | inl failed ↦
        rw (failed, settle)
          (rw (lookup-update_self incident.dedup_key cleared incident.row t.rows h)
            (λ q. ground (arith, eq_iff "open" "alert_failed")))
    | inr fine ↦
        rw (fine, settle) (rw h (λ q. ground (arith, eq_iff incident.row.status "alert_failed")))
  ],
)
settle_status incident false made t h =
    (λ e. ap status_of (lookup-update_self incident.dedup_key _ incident.row t.rows h), λ e. cc)

route_status :
    (deps : Deps) (sig : Signal) (c : Classified) (incident : Incident) (b : Bool) (t : Incidents)
    → lookup incident.dedup_key t.rows ≡ some incident.row
    → let (outcome, t') = route deps sig c incident b t in
      (outcome.alert_failed ≡ true → status_at incident.dedup_key t' ≡ some "alert_failed")
      × (outcome.alerted ≡ true → status_at incident.dedup_key t' ≢ some "alert_failed")
unfolding route notify
route_status deps sig c incident true t h = settle_status incident _ _ t h
route_status deps sig c incident false t h = (λ e. cc, λ e. cc)

classified_status :
    (deps : Deps) (sig : Signal) (o : Option Classified) (now : ℕ) (t : Incidents)
    → let (outcome, t') = triage_classified deps sig o now t in
      (outcome.alert_failed ≡ true → status_at (key_of deps sig) t' ≡ some "alert_failed")
      × (outcome.alerted ≡ true → status_at (key_of deps sig) t' ≢ some "alert_failed")
unfolding triage_classified
classified_status deps sig none now t = (λ e. cc, λ e. cc)
classified_status deps sig (some c) now t =
    let d = dedup deps sig c now t in
    let (k, r, rows, fresh, recent) = dedup_lem deps sig c now t in
    let there : lookup d.0.dedup_key d.2.rows ≡ some d.0.row = ground (
      arith,
      k,
      rows,
      lookup-insert (key_of deps sig) (key_of deps sig) d.0.row t.rows,
      eq_iff (key_of deps sig) (key_of deps sig),
    ) in
    rw k at (route_status deps sig c d.0 (decide d.0.row.status c.severity d.1) d.2 there)

-- A pass whose page could not be delivered leaves its incident marked `alert_failed`, and a pass that
-- delivered its page leaves it unmarked.
pub settled_status :
    (deps : Deps) (open_mark close_mark : String) (sig : Signal) (now : ℕ) (t : Incidents)
    → let (outcome, t') = triage deps open_mark close_mark sig now t in
      (outcome.alert_failed ≡ true → status_at (key_of deps sig) t' ≡ some "alert_failed")
      × (outcome.alerted ≡ true → status_at (key_of deps sig) t' ≢ some "alert_failed")
unfolding triage
settled_status deps open_mark close_mark sig now t =
    classified_status deps sig (classify deps open_mark close_mark sig) now t

settle_frame :
    (incident : Incident) (done : Bool) (made : ℕ) (key : String) (t : Incidents)
    → incident.dedup_key ≢ key
    → lookup key (settle incident done made t).1.rows ≡ lookup key t.rows
unfolding settle mark_alert_failed clear_alert_failed
settle_frame incident true made key t ne =
    ground
      (arith, lookup-update incident.dedup_key key cleared t.rows, eq_iff incident.dedup_key key)
settle_frame incident false made key t ne =
    lookup-update incident.dedup_key key _ t.rows ∙ ground (arith, eq_iff incident.dedup_key key)

route_frame :
    (deps : Deps) (sig : Signal) (c : Classified) (incident : Incident) (b : Bool) (key : String)
    (t : Incidents)
    → incident.dedup_key ≢ key
    → lookup key (route deps sig c incident b t).1.rows ≡ lookup key t.rows
unfolding route notify
route_frame deps sig c incident true key t ne = settle_frame incident _ _ key t ne
route_frame deps sig c incident false key t ne = refl

classified_frame :
    (deps : Deps) (sig : Signal) (o : Option Classified) (now : ℕ) (key : String) (t : Incidents)
    → key_of deps sig ≢ key
    → lookup key (triage_classified deps sig o now t).1.rows ≡ lookup key t.rows
unfolding triage_classified
classified_frame deps sig none now key t ne = refl
classified_frame deps sig (some c) now key t ne =
    let d = dedup deps sig c now t in
    let (k, r, rows, fresh, recent) = dedup_lem deps sig c now t in
    route_frame deps sig c d.0 (decide d.0.row.status c.severity d.1) key d.2 (rw k ne)
    ∙ ap (lookup key) rows
    ∙ lookup-insert (key_of deps sig) key d.0.row t.rows
    ∙ ground (arith, eq_iff (key_of deps sig) key)

-- A pass over one signal leaves the incidents of every other dedup key as they were.
pub triage_frame :
    (deps : Deps) (open_mark close_mark : String) (sig : Signal) (now : ℕ) (key : String)
    (t : Incidents)
    → key_of deps sig ≢ key
    → lookup key (triage deps open_mark close_mark sig now t).1.rows ≡ lookup key t.rows
unfolding triage
triage_frame deps open_mark close_mark sig now key t ne =
    classified_frame deps sig (classify deps open_mark close_mark sig) now key t ne

-- Signals that are triaged one after the other, each at its time.
unfoldable pub triage_all : Deps → String → String → List (Signal × ℕ) → Incidents → Incidents
triage_all deps open_mark close_mark [] t = t
triage_all deps open_mark close_mark ((sig, now) ∷ rest) t =
    triage_all deps open_mark close_mark rest (triage deps open_mark close_mark sig now t).1

-- No signal of a list pages for a key: each has another dedup key, or its pass raises.
abbrev pub PassBy : Deps → String → String → String → List (Signal × ℕ) → Type 0
PassBy deps open_mark close_mark key [] = Unit
PassBy deps open_mark close_mark key ((sig, now) ∷ rest) =
    ((key_of deps sig ≢ key) ⊎ HasBadSeverity deps open_mark close_mark sig)
    × PassBy deps open_mark close_mark key rest

triage_all_frame :
    (deps : Deps) (open_mark close_mark : String) (sigs : List (Signal × ℕ)) (key : String)
    (t : Incidents)
    → PassBy deps open_mark close_mark key sigs
    → lookup key (triage_all deps open_mark close_mark sigs t).rows ≡ lookup key t.rows
unfolding triage_all
triage_all_frame deps open_mark close_mark [] key t h = refl
triage_all_frame deps open_mark close_mark ((sig, now) ∷ rest) key t h =
    triage_all_frame deps open_mark close_mark rest key
      (triage deps open_mark close_mark sig now t).1 h.1
    ∙ elim h.0 [
      | inl other ↦ triage_frame deps open_mark close_mark sig now key t other
      | inr bad ↦
          let (raises, still, pages) = triage_pages_iff deps open_mark close_mark sig now t in
          ap (λ t'. lookup key t'.rows) (still (raises.1 bad)).1
    ]

outstanding_pages :
    (deps : Deps) (open_mark close_mark : String) (sig : Signal) (now : ℕ) (t : Incidents)
    → status_at (key_of deps sig) t ≡ some "alert_failed"
    → ¬ HasBadSeverity deps open_mark close_mark sig
    → (triage deps open_mark close_mark sig now t).0.alert ≡ true
outstanding_pages deps open_mark close_mark sig now t h fine =
    elim (Option-cases (classify deps open_mark close_mark sig)) [
      | inl e ↦ absurd (fine ((classify-none_iff deps open_mark close_mark sig).0 e))
      | inr (c, e) ↦ elim (Bool-cases (triage deps open_mark close_mark sig now t).0.alert) [
        | inl paged ↦ paged
        | inr silent ↦ absurd (
            not_suppressed c (lookup (key_of deps sig) t.rows) h
              (((triage_pages_iff deps open_mark close_mark sig now t).2 c e).0 silent))
      ]
    ]
  where
    not_suppressed :
        (c : Classified) (o : Option Row)
        → status_of o ≡ some "alert_failed"
        → Suppresses deps c now o
        → ⊥
    not_suppressed c none p q = q
    not_suppressed c (some row) p q = ground (arith, q.1)

-- No page is lost: take a pass whose alert could not be published, and after it any signals that have
-- other dedup keys or whose passes raise. The next signal with the same source and fingerprint is
-- paged again, whatever its severity and however short the time between, if the model does not answer
-- to it with a list or an object as the severity; if it does, the incident stays marked
-- `alert_failed`, for the next signal after it.
pub failed_page_retried :
    (deps : Deps) (open_mark close_mark : String) (sig again : Signal) (now later : ℕ)
    (others : List (Signal × ℕ)) (t : Incidents)
    → key_of deps again ≡ key_of deps sig
    → PassBy deps open_mark close_mark (key_of deps sig) others
    → (triage deps open_mark close_mark sig now t).0.alert_failed ≡ true
    → let t' =
        triage_all deps open_mark close_mark others
          (triage deps open_mark close_mark sig now t).1 in
      let (outcome, t'') = triage deps open_mark close_mark again later t' in
      (¬ HasBadSeverity deps open_mark close_mark again → outcome.alert ≡ true)
      × (HasBadSeverity deps open_mark close_mark again
          → status_at (key_of deps sig) t'' ≡ some "alert_failed")
failed_page_retried deps open_mark close_mark sig again now later others t same apart failed =
    let before = (triage deps open_mark close_mark sig now t).1 in
    let t' = triage_all deps open_mark close_mark others before in
    let (raises, still, pages) = triage_pages_iff deps open_mark close_mark again later t' in
    let marked : status_at (key_of deps sig) t' ≡ some "alert_failed" =
      ap status_of
        (triage_all_frame deps open_mark close_mark others (key_of deps sig) before apart)
      ∙ (settled_status deps open_mark close_mark sig now t).0 failed in
    (
      outstanding_pages deps open_mark close_mark again later t' (rw same marked),
      λ bad. ap (status_at (key_of deps sig)) (still (raises.1 bad)).1 ∙ marked,
    )
