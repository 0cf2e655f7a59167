-- ===== src/Dashboard/Tiles/Status.antt =====
-- The colour of an agent's tile, in terms of the agent's answers (dashboard/aggregator.py).
use agent_bakery.Prelude.{
  ◌≡◌, inl, inr, refl, Bool, true, false, not, ◌||◌, str_eq, Bool-cases, if◌then◌else◌,
}
use agent_bakery.Dashboard.Upstream.{Http, Answer, payload, unavailable, get}
use agent_bakery.Dashboard.Tiles.{
  AgentSpec, Metrics, Readiness, status, health, compose, blank, apply_metrics, is_failing,
}

abbrev pub is_answered : {B : Type 0} → Answer B → Bool
is_answered (payload b) = true
is_answered (unavailable reason) = false

-- The agent says that it is not ready, by its payload or by a 503.
abbrev pub says_not_ready : Answer Readiness → Bool
says_not_ready (payload readiness) = not readiness.ready
says_not_ready (unavailable reason) = str_eq reason "http 503"

-- The agent says that more than a tenth of its requests failed.
abbrev pub says_failing : Answer Metrics → Bool
says_failing (payload metrics) = is_failing metrics.error_rate_5m
says_failing (unavailable reason) = false

composed :
    {B : Type 0} (spec : AgentSpec) (healthz : Answer B) (readyz : Answer Readiness)
    (metrics : Answer Metrics)
    → str_eq spec.kind "batch" ≡ false
    → status (compose healthz readyz metrics (blank spec)) ≡ (
        if is_answered healthz
        then (if says_not_ready readyz || says_failing metrics then "amber" else "green")
        else "red")
unfolding status
composed spec (unavailable reason) readyz metrics h = rw h refl
composed spec (payload b) (payload r) (payload m) h = rw h refl
composed spec (payload b) (payload r) (unavailable reason) h = rw h refl
composed spec (payload b) (unavailable reason) (payload m) h =
    elim (Bool-cases (str_eq reason "http 503")) [ inl e ↦ rw (h, e) refl | inr e ↦ rw (h, e) refl ]
composed spec (payload b) (unavailable reason) (unavailable other) h =
    elim (Bool-cases (str_eq reason "http 503")) [ inl e ↦ rw (h, e) refl | inr e ↦ rw (h, e) refl ]

grey :
    (spec : AgentSpec) (metrics : Answer Metrics)
    → str_eq spec.kind "batch" ≡ true
    → status (apply_metrics metrics (blank spec)) ≡ "grey"
unfolding status
grey spec (payload m) h = rw h refl
grey spec (unavailable reason) h = rw h refl

-- A batch agent's tile is grey. Another agent's is red exactly when /healthz does not answer; else it
-- is amber when /readyz says that the agent is not ready, be it by a 503, or /metrics.json reports
-- that more than a tenth of the requests failed, and green otherwise: so also where /readyz or
-- /metrics.json cannot be reached.
pub status-health :
    {B : Type 0} (spec : AgentSpec) (healthz : Http B) (readyz : Http Readiness)
    (metrics : Http Metrics)
    → status (health spec healthz readyz metrics) ≡ (
        if str_eq spec.kind "batch"
        then "grey"
        else if is_answered (get healthz)
        then (if says_not_ready (get readyz) || says_failing (get metrics)
            then "amber"
            else "green")
        else "red")
unfolding health
status-health spec healthz readyz metrics = elim (Bool-cases (str_eq spec.kind "batch")) [
  | inl e ↦ rw e (grey spec (get metrics) e)
  | inr e ↦ rw e (composed spec (get healthz) (get readyz) (get metrics) e)
]
