-- ===== src/Dashboard/Store/Rollup/Totals.antt =====
-- The totals of the agents in the daily roll-up of dashboard/store.py, beside the reports by model.
use agent_bakery.Prelude.{ℕ, ◌≡◌, refl, Option, false, List, [], ◌∷◌, ◌++◌, arith, ◌∙◌}
use agent_bakery.Prelude.Chars.{Chars, strip, is_space, same_text}
use agent_bakery.Dashboard.Store.{moment, DailyKey}
use agent_bakery.Dashboard.Store.Costs.{agent_total_model, model_label, or_unknown}
use agent_bakery.Dashboard.Store.Rollup.{Amounts, spent_on, peak}
use agent_bakery.Dashboard.Store.Rollup.History.{
  Op, beat, cost, cost_by_model, rollup, prune, after, model_reports, reports, history, no_tables,
  daily_row-IsPeak,
}

-- The reports of totals by agent only.
abbrev pub totals : List (ℕ × Op) → Amounts
totals [] = []
totals ((now, beat b ts) ∷ ops) = totals ops
totals ((now, cost agent usd ts) ∷ ops) = reports now (cost agent usd ts) ++ totals ops
totals ((now, cost_by_model agent items ts) ∷ ops) = totals ops
totals ((now, rollup) ∷ ops) = totals ops
totals ((now, prune days) ∷ ops) = totals ops

abbrev pub total_key : Chars → ℕ → DailyKey
total_key agent day = record { agent = agent; model = agent_total_model; day = day }

same_text-or_unknown : (s : Chars) → same_text (or_unknown s) agent_total_model ≡ false
same_text-or_unknown [] = refl
same_text-or_unknown (c ∷ s) = refl

model_reports-peak :
    (agent a : Chars) (when day : ℕ) (items : List (Chars × Option ℕ)) (h : Amounts)
    → peak (total_key a day) (model_reports agent when items ++ h) ≡ peak (total_key a day) h
model_reports-peak agent a when day [] h = refl
model_reports-peak agent a when day ((model, usd) ∷ items) h =
    let named : same_text (model_label model) agent_total_model ≡ false =
      unfold model_label in same_text-or_unknown (strip is_space model) in
    ground (arith, named, model_reports-peak agent a when day items h)

history-totals :
    (ops : List (ℕ × Op)) (a : Chars) (day : ℕ)
    → peak (total_key a day) (history ops) ≡ peak (total_key a day) (totals ops)
history-totals [] a day = refl
history-totals ((now, beat b ts) ∷ ops) a day = history-totals ops a day
history-totals ((now, cost agent usd ts) ∷ ops) a day = ground (arith, history-totals ops a day)
history-totals ((now, cost_by_model agent items ts) ∷ ops) a day =
    model_reports-peak agent a (moment ts now) day items (history ops) ∙ history-totals ops a day
history-totals ((now, rollup) ∷ ops) a day = history-totals ops a day
history-totals ((now, prune days) ∷ ops) a day = history-totals ops a day

-- From empty tables, after any sequence of heartbeats, cost reports, reports by model, repairs and
-- prunes, the daily row of an agent's total holds the greatest total that was reported for the agent
-- and the day: no report by model ever changes it, whatever names of models it has, empty and blank
-- ones included.
pub total_row-IsPeak :
    (ops : List (ℕ × Op)) (agent : Chars) (day : ℕ)
    → spent_on (total_key agent day) (after ops no_tables).cost_daily
      ≡ peak (total_key agent day) (totals ops)
total_row-IsPeak ops agent day =
    daily_row-IsPeak ops (total_key agent day) ∙ history-totals ops agent day
