-- ===== src/Dashboard/Views/Tests.antt =====
-- Runs of the models of dashboard/views.py, and their theorems at concrete inputs.
use agent_bakery.Prelude.{
  ℕ, suc, ◌≡◌, ◌⊎◌, ◌++◌, refl, some, none, List, [], ◌∷◌, length, map, arith,
}
use agent_bakery.Prelude.Chars.{Chars, lower}
use agent_bakery.Prelude.Text.{codes}
use agent_bakery.Prelude.Rows.{select, sort_by, sum_of, AllOf}
use agent_bakery.Prelude.Groups.{text_le}
use agent_bakery.Audit.{AuditRow, query}
use agent_bakery.Dashboard.Store.CostQueries.{CostRow}
use agent_bakery.Dashboard.Views.Chart.{Day, Entry, build_cost_chart}
use agent_bakery.Dashboard.Views.Chart.Balance.{IsStacked, chart_balances}
use agent_bakery.Dashboard.Views.Activity.{Filter, is_shown, older_link, activity_context}
use agent_bakery.Dashboard.Views.Activity.Cursor.{IsDistinct}
use agent_bakery.Dashboard.Views.Activity.Pages.{Filled, read, wanted, activity_pages_complete}

abbrev opus : Chars
opus = codes "opus"

abbrev haiku : Chars
haiku = codes "haiku"

abbrev rows : List CostRow
rows =
    record { day = 2; model = opus; usd = 300 }
    ∷ record { day = 1; model = haiku; usd = 50 }
    ∷ record { day = 2; model = haiku; usd = 100 }
    ∷ []

chart_balances_example :
    let chart = build_cost_chart rows in
    (chart.total ≡ sum_of CostRow.usd rows)
    × (sum_of Day.total chart.days ≡ sum_of CostRow.usd rows)
    × (sum_of Entry.total chart.legend ≡ sum_of CostRow.usd rows)
    × AllOf IsStacked chart.days
chart_balances_example = chart_balances rows

chart_total : (build_cost_chart rows).total ≡ 450
unfolding build_cost_chart
chart_total = refl

abbrev audit_row : ℕ → ℕ → Chars → AuditRow
audit_row id ts action = record {
  id = id;
  tenant_id = "ops";
  ts = ts;
  actor = codes "Ann";
  action = action;
  resource = none;
  metadata = [];
}

abbrev log : List AuditRow
log =
    audit_row 1 10 (codes "run")
    ∷ audit_row 2 20 (codes "token-mint")
    ∷ audit_row 3 30 (codes "run")
    ∷ audit_row 4 40 (codes "token-revoke")
    ∷ []

abbrev tokens : Filter
tokens = record { action = none; actor = some (codes "Ann"); q = some (codes " TOKEN ") }

abbrev lowercase : Chars → Chars
lowercase = map lower

abbrev distinct : IsDistinct log
distinct = (
  (λ e. omega arith, (λ e. omega arith, (λ e. omega arith, tt))),
  ((λ e. omega arith, (λ e. omega arith, tt)), ((λ e. omega arith, tt), (tt, tt))),
)

activity_pages_complete_example :
    let all = wanted lowercase text_le "ops" tokens log in
    let seen = read lowercase text_le "ops" tokens (suc (length all)) none 2 log in
    let matching = select (is_shown lowercase tokens.q) all in
    ((missed : List AuditRow) × (matching ≡ seen ++ missed))
    × (Filled lowercase text_le "ops" tokens 2 log → seen ≡ matching)
    × ((tokens.q ≡ none) ⊎ (tokens.q ≡ some []) → seen ≡ all)
activity_pages_complete_example =
    activity_pages_complete lowercase text_le "ops" tokens 1 log distinct

-- Nothing on the first page matches, so the match on the second is not reached.
abbrev minted : Filter
minted = record tokens { q = some (codes "mint") }

match_not_reached :
    (read lowercase text_le "ops" minted 5 none 1 log ≡ [])
    × (select (is_shown lowercase minted.q) (wanted lowercase text_le "ops" minted log)
        ≡ audit_row 2 20 (codes "token-mint") ∷ [])
unfolding read older_link activity_context query is_shown sort_by lower
match_not_reached = (refl, refl)

tokens_seen :
    select (is_shown lowercase tokens.q) (wanted lowercase text_le "ops" tokens log)
    ≡ audit_row 4 40 (codes "token-revoke") ∷ audit_row 2 20 (codes "token-mint") ∷ []
unfolding is_shown lower sort_by
tokens_seen = refl
