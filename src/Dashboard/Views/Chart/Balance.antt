-- ===== src/Dashboard/Views/Chart/Balance.antt =====
-- The totals of the chart of dashboard/views.py.
use agent_bakery.Prelude.{
  ℕ, ◌+◌, ◌≡◌, refl, List, [], ◌∷◌, map, ◌==◌, arith, Bool-cases, inl, inr, ◌∙◌, sym,
}
use agent_bakery.Prelude.Chars.{Chars, same_text}
use agent_bakery.Prelude.Rows.{sort_by, AllOf, sum_of, sort_by-sum_of}
use agent_bakery.Prelude.Groups.{value_of, add_to, sum_of-add_to}
use agent_bakery.Dashboard.Store.CostQueries.{CostRow}
use agent_bakery.Dashboard.Views.Chart.{
  Segments, add_day, pivot, total_of, max_total, Segment, Day, Entry, dearest_first, earliest_first,
  to_segment, to_day, to_entry, build_cost_chart,
}

sum-add_day :
    (day : ℕ) (model : Chars) (usd : ℕ) (days : List (ℕ × Segments))
    → sum_of total_of (add_day day model usd days) ≡ sum_of total_of days + usd
unfolding add_day
sum-add_day day model usd [] = omega arith
sum-add_day day model usd ((d, segs) ∷ days) = elim (Bool-cases (d == day)) [
  | inl same ↦ rw same (omega (arith, sum_of-add_to same_text model usd segs))
  | inr other ↦ rw other (omega (arith, sum-add_day day model usd days))
]

pub sum-pivot :
    (rows : List CostRow) (days : List (ℕ × Segments)) (models : Segments)
    → (sum_of total_of (pivot rows days models).0 ≡ sum_of CostRow.usd rows + sum_of total_of days)
      × (sum_of value_of (pivot rows days models).1
          ≡ sum_of CostRow.usd rows + sum_of value_of models)
sum-pivot [] days models = (omega arith, omega arith)
sum-pivot (r ∷ rows) days models =
    let ih =
      sum-pivot rows (add_day r.day r.model r.usd days) (add_to same_text r.model r.usd models) in
    (
      omega (arith, ih.0, sum-add_day r.day r.model r.usd days),
      omega (arith, ih.1, sum_of-add_to same_text r.model r.usd models),
    )

pub sum-map :
    {A B : Type 0} (f : A → B) (g : B → ℕ) (h : A → ℕ) (xs : List A)
    → ((x : A) → g (f x) ≡ h x)
    → sum_of g (map f xs) ≡ sum_of h xs
sum-map f g h [] e = refl
sum-map f g h (x ∷ xs) e = omega (arith, e x, sum-map f g h xs e)

-- A bar's total is the sum of its segments.
abbrev pub IsStacked : Day → Type 0
IsStacked d = d.total ≡ sum_of Segment.usd d.segments

to_day-IsStacked :
    (models : Segments) (highest : ℕ) (d : ℕ × Segments) → IsStacked (to_day models highest d)
to_day-IsStacked models highest (day, segs) = sym (
    sum-map (to_segment models (sum_of value_of segs)) Segment.usd value_of
      (sort_by dearest_first segs) (λ s. refl)
    ∙ sort_by-sum_of value_of dearest_first segs)

days-IsStacked :
    (models : Segments) (highest : ℕ) (days : List (ℕ × Segments))
    → AllOf IsStacked (map (to_day models highest) days)
days-IsStacked models highest [] = tt
days-IsStacked models highest (d ∷ days) =
    (to_day-IsStacked models highest d, days-IsStacked models highest days)

-- The total of the chart is the sum of the rows that it is built of, and so is the sum of its bars, and
-- the sum of its legend; and every bar is the sum of its segments.
pub chart_balances :
    (rows : List CostRow)
    → let chart = build_cost_chart rows in
      (chart.total ≡ sum_of CostRow.usd rows)
      × (sum_of Day.total chart.days ≡ sum_of CostRow.usd rows)
      × (sum_of Entry.total chart.legend ≡ sum_of CostRow.usd rows)
      × AllOf IsStacked chart.days
unfolding build_cost_chart
chart_balances rows =
    let days = (pivot rows [] []).0 in
    let models = (pivot rows [] []).1 in
    let sorted = sort_by dearest_first models in
    let balance = sum-pivot rows [] [] in
    (
      omega (arith, balance.1),
      sum-map (to_day sorted (max_total days)) Day.total total_of (sort_by earliest_first days)
            (λ d. refl)
          ∙ sort_by-sum_of total_of earliest_first days
          ∙ balance.0
          ∙ omega arith,
      sum-map (to_entry sorted) Entry.total value_of sorted (λ m. refl)
          ∙ sort_by-sum_of value_of dearest_first models
          ∙ balance.1
          ∙ omega arith,
      days-IsStacked sorted (max_total days) (sort_by earliest_first days),
    )
