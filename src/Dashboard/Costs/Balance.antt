-- ===== src/Dashboard/Costs/Balance.antt =====
-- The total of dashboard/aggregator.py's cost roll-up against the costs that it lists.
use agent_bakery.Prelude.{
  if◌then◌else◌, ℕ, ◌+◌, String, ◌≡◌, refl, false, none, List, [], ◌∷◌, arith, str_eq, Bool-cases,
  inl, inr,
}
use agent_bakery.Prelude.Dict.{Dict, lookup, insert, lookup-insert}
use agent_bakery.Dashboard.Upstream.{Http, Answer, payload, unavailable, get}
use agent_bakery.Dashboard.Tiles.{AgentSpec, Metrics}
use agent_bakery.Dashboard.Costs.{Rollup, spent, add_answer, roll_up, cost_rollup}

abbrev pub Agents : Type 0
Agents = List (AgentSpec × Http Metrics)

-- The sum of the costs that are listed by agent.
abbrev pub total_listed : Dict ℕ → ℕ
total_listed [] = 0
total_listed ((slug, usd) ∷ d) = usd + total_listed d

total-insert :
    (slug : String) (usd : ℕ) (d : Dict ℕ)
    → lookup slug d ≡ none
    → total_listed (insert slug usd d) ≡ total_listed d + usd
total-insert slug usd [] h = omega arith
total-insert slug usd ((k, v) ∷ d) h = elim (Bool-cases (str_eq k slug)) [
  | inl e ↦ absurd (cc (rw e at h))
  | inr e ↦ rw e (omega (arith, total-insert slug usd d (rw e at h)))
]

-- No agent of the list has this slug, or is listed under its slug already.
abbrev pub IsNew : String → Agents → Type 0
IsNew slug [] = Unit
IsNew slug ((spec, answer) ∷ rest) = (str_eq slug spec.slug ≡ false) × IsNew slug rest

abbrev pub IsDistinct : Agents → Type 0
IsDistinct [] = Unit
IsDistinct ((spec, answer) ∷ rest) = IsNew spec.slug rest × IsDistinct rest

abbrev IsUnlisted : Agents → Dict ℕ → Type 0
IsUnlisted [] d = Unit
IsUnlisted ((spec, answer) ∷ rest) d = (lookup spec.slug d ≡ none) × IsUnlisted rest d

IsUnlisted-insert :
    (slug : String) (usd : ℕ) (d : Dict ℕ) (rest : Agents)
    → IsNew slug rest
    → IsUnlisted rest d
    → IsUnlisted rest (insert slug usd d)
IsUnlisted-insert slug usd d [] h k = tt
IsUnlisted-insert slug usd d ((spec, answer) ∷ rest) h k =
    (rw (lookup-insert slug spec.slug usd d, h.0) k.0, IsUnlisted-insert slug usd d rest h.1 k.1)

abbrev IsBalanced : Rollup → Type 0
IsBalanced r = r.total ≡ total_listed r.per_agent

add_answer-IsBalanced :
    (slug : String) (rest : Agents) (a : Answer Metrics) (r : Rollup)
    → IsNew slug rest
    → (lookup slug r.per_agent ≡ none) × IsUnlisted rest r.per_agent
    → IsBalanced r
    → let r' = add_answer slug a r in IsUnlisted rest r'.per_agent × IsBalanced r'
add_answer-IsBalanced slug rest (unavailable reason) r h k b = (k.1, b)
add_answer-IsBalanced slug rest (payload m) r h k b = (
  IsUnlisted-insert slug (spent m) r.per_agent rest h k.1,
  omega (arith, b, total-insert slug (spent m) r.per_agent k.0),
)

one_more-IsBalanced :
    (spec : AgentSpec) (rest : Agents) (a : Answer Metrics) (r : Rollup)
    → IsNew spec.slug rest
    → (lookup spec.slug r.per_agent ≡ none) × IsUnlisted rest r.per_agent
    → IsBalanced r
    → let r' = (if str_eq spec.kind "self" then r else add_answer spec.slug a r) in
      IsUnlisted rest r'.per_agent × IsBalanced r'
one_more-IsBalanced spec rest a r h k b = elim (Bool-cases (str_eq spec.kind "self")) [
  | inl e ↦ rw e (k.1, b)
  | inr e ↦ rw e (add_answer-IsBalanced spec.slug rest a r h k b)
]

roll_up-IsBalanced :
    (agents : Agents) (r : Rollup)
    → IsDistinct agents
    → IsUnlisted agents r.per_agent
    → IsBalanced r
    → IsBalanced (roll_up agents r)
unfolding roll_up
roll_up-IsBalanced [] r h k b = b
roll_up-IsBalanced ((spec, answer) ∷ rest) r h k b =
    let (unlisted, balanced) = one_more-IsBalanced spec rest (get answer) r h.0 k b in
    roll_up-IsBalanced rest _ h.1 unlisted balanced

all-IsUnlisted : (agents : Agents) → IsUnlisted agents []
all-IsUnlisted [] = tt
all-IsUnlisted ((spec, answer) ∷ rest) = (refl, all-IsUnlisted rest)

-- With agents of distinct slugs, whichever of them cannot be reached, the total of the roll-up is the
-- sum of the costs that it lists by agent.
pub cost_rollup_balances :
    (agents : Agents)
    → IsDistinct agents
    → (cost_rollup agents).total ≡ total_listed (cost_rollup agents).per_agent
unfolding cost_rollup
cost_rollup_balances agents h = roll_up-IsBalanced agents _ h (all-IsUnlisted agents) refl
