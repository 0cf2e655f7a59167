-- ===== src/Dashboard/Store/CostQueries/Windows.antt =====
-- The windows of the costs against the table: `cost_windows` of dashboard/store.py.
use agent_bakery.Prelude.{
  ℕ, ◌+◌, ◌≤◌, Bool, ◌≡◌, refl, List, [], ◌∷◌, arith, Bool-cases, inl, inr, ◌∙◌,
}
use agent_bakery.Prelude.Chars.{Chars, same_text}
use agent_bakery.Prelude.Rows.{
  select, AllOf, IsSorted, IsOrder, sum_of, sort_by-AllOf, sort_by-IsSorted, sort_by-sum_of,
}
use agent_bakery.Prelude.Groups.{value_of}
use agent_bakery.Dashboard.Store.{DailyKey}
use agent_bakery.Dashboard.Store.CostQueries.{
  is_total, Window, add_window, group_windows, most_spent_first, cost_windows,
}

-- A window holds the shorter ones.
abbrev pub IsNested : Window → Type 0
IsNested w = (w.week ≤ w.month) × (w.month ≤ w.all_time)

module _ (now week_days month_days : ℕ) where
  add_window-IsNested :
      week_days ≤ month_days
      → (key : DailyKey) (usd : ℕ) (ws : List Window) → AllOf IsNested ws
      → AllOf IsNested (add_window now week_days month_days key usd ws)
  unfolding add_window
  add_window-IsNested le key usd [] h = ground arith
  add_window-IsNested le key usd (w ∷ ws) h = elim (Bool-cases (same_text w.agent key.agent)) [
    | inl same ↦ rw same (ground (arith, h.0), h.1)
    | inr other ↦ rw other (h.0, add_window-IsNested le key usd ws h.1)
  ]

  group_windows-IsNested :
      week_days ≤ month_days
      → (rows : List (DailyKey × ℕ)) → AllOf IsNested (group_windows now week_days month_days rows)
  unfolding group_windows
  group_windows-IsNested le [] = tt
  group_windows-IsNested le ((key, usd) ∷ rows) =
      add_window-IsNested le key usd (group_windows now week_days month_days rows)
        (group_windows-IsNested le rows)

  add_window-sum :
      (key : DailyKey) (usd : ℕ) (ws : List Window)
      → sum_of Window.all_time (add_window now week_days month_days key usd ws)
        ≡ usd + sum_of Window.all_time ws
  unfolding add_window
  add_window-sum key usd [] = refl
  add_window-sum key usd (w ∷ ws) = elim (Bool-cases (same_text w.agent key.agent)) [
    | inl same ↦ rw same (omega arith)
    | inr other ↦ rw other (omega (arith, add_window-sum key usd ws))
  ]

  group_windows-sum :
      (rows : List (DailyKey × ℕ))
      → sum_of Window.all_time (group_windows now week_days month_days rows) ≡ sum_of value_of rows
  unfolding group_windows
  group_windows-sum [] = refl
  group_windows-sum ((key, usd) ∷ rows) = omega (
    arith,
    add_window-sum key usd (group_windows now week_days month_days rows),
    group_windows-sum rows,
  )

most_spent_first-IsOrder :
    (collate : Chars → Chars → Bool) → IsOrder collate → IsOrder (most_spent_first collate)
most_spent_first-IsOrder collate o = record {
  total = λ v w h. ground (arith, o.total v.agent w.agent);
  trans = λ u v w h k. ground (arith, o.trans u.agent v.agent w.agent);
}

-- Where the week is no longer than the month and the collation is an order, the windows are nested for
-- every agent, the spend of all time sums up to that of the rows of the agents' totals, and the agents
-- come in the order of what they spent, the highest first, and of their names where it is equal.
pub cost_windows_consistent :
    (collate : Chars → Chars → Bool) (now week_days month_days : ℕ) (rows : List (DailyKey × ℕ))
    → IsOrder collate
    → week_days ≤ month_days
    → let windows = cost_windows collate now week_days month_days rows in
      AllOf IsNested windows
      × (sum_of Window.all_time windows ≡ sum_of value_of (select (λ r. is_total r.0) rows))
      × IsSorted (most_spent_first collate) windows
unfolding cost_windows
cost_windows_consistent collate now week_days month_days rows o le =
    let totals = select (λ (r : DailyKey × ℕ). is_total r.0) rows in
    let groups = group_windows now week_days month_days totals in
    (
      sort_by-AllOf IsNested (most_spent_first collate) groups
          (group_windows-IsNested now week_days month_days le totals),
      sort_by-sum_of Window.all_time (most_spent_first collate) groups
          ∙ group_windows-sum now week_days month_days totals,
      sort_by-IsSorted (most_spent_first collate) (most_spent_first-IsOrder collate o) groups,
    )
