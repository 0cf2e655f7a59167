-- ===== src/Dashboard/Views/Chart.antt =====
-- `build_cost_chart` of dashboard/views.py: rows by day and model, as stacked bars. Amounts are in
-- millionths of a dollar, a height in tenths of a percent and a share in hundredths.
pub mod Balance
pub mod Bars
use Prim.Native.Nat.{max}
use agent_bakery.Prelude.{
  ℕ, suc, ◌+◌, ◌*◌, ◌/◌, ◌%◌, Bool, ◌&&◌, ◌||◌, Option, none, some, List, [], ◌∷◌, map, ltb, leb,
  ◌==◌, if◌then◌else◌,
}
use agent_bakery.Prelude.Chars.{Chars, same_text}
use agent_bakery.Prelude.Rows.{sort_by, sum_of}
use agent_bakery.Prelude.Groups.{value_of, add_to, text_le}
use agent_bakery.Dashboard.Store.CostQueries.{CostRow}

-- Amounts by model.
abbrev pub Segments : Type 0
Segments = List (Chars × ℕ)

abbrev pub chart_colors : ℕ
chart_colors = 6

-- `round(a / b)`: to the nearest, and to the even one of two.
unfoldable pub round_div : ℕ → ℕ → ℕ
round_div a b =
    let q = a / b in
    let r = a % b in if ltb (r + r) b then q else if ltb b (r + r) then suc q else q + q % 2

-- `days_map.setdefault(day, {})[model] = … + usd`
unfoldable pub add_day : ℕ → Chars → ℕ → List (ℕ × Segments) → List (ℕ × Segments)
unfolding add_to
add_day day model usd [] = (day, (model, usd) ∷ []) ∷ []
add_day day model usd ((d, segs) ∷ days) =
    if d == day
    then (d, add_to same_text model usd segs) ∷ days
    else (d, segs) ∷ add_day day model usd days

-- The loop over the rows: the segments by day, and the total by model.
abbrev pub pivot : List CostRow → List (ℕ × Segments) → Segments → List (ℕ × Segments) × Segments
pivot [] days_map model_total = (days_map, model_total)
pivot (r ∷ rows) days_map model_total =
    pivot rows (add_day r.day r.model r.usd days_map) (add_to same_text r.model r.usd model_total)

-- `key=lambda m: (-model_total[m], m)`
abbrev pub dearest_first : Chars × ℕ → Chars × ℕ → Bool
dearest_first (m, v) (n, w) = ltb w v || v == w && text_le m n

-- `color_of[m]`; `none` is a KeyError.
abbrev pub color_from : ℕ → Chars → Segments → Option ℕ
color_from i m [] = none
color_from i m ((n, v) ∷ models) =
    if same_text n m then some (i % chart_colors) else color_from (suc i) m models

abbrev pub total_of : ℕ × Segments → ℕ
total_of (day, segs) = sum_of value_of segs

-- `max(…, default=0.0)`
abbrev pub max_total : List (ℕ × Segments) → ℕ
max_total [] = 0
max_total (d ∷ days) = max (total_of d) (max_total days)

pub record Segment : Type 0 where
  pub model : Chars
  pub usd : ℕ
  pub color_idx : Option ℕ
  pub pct : ℕ

pub record Day : Type 0 where
  pub day : ℕ
  pub total : ℕ
  pub height_pct : ℕ
  pub segments : List Segment

pub record Entry : Type 0 where
  pub model : Chars
  pub color_idx : Option ℕ
  pub total : ℕ

pub record Chart : Type 0 where
  pub days : List Day
  pub legend : List Entry
  pub total : ℕ

-- A share of a whole in parts of it, which is 0 where the whole is.
abbrev pub share : ℕ → ℕ → ℕ → ℕ
share parts part whole = if whole == 0 then 0 else round_div (part * parts) whole

abbrev pub to_segment : Segments → ℕ → Chars × ℕ → Segment
to_segment models total (model, usd) = record {
  model = model;
  usd = usd;
  color_idx = color_from 0 model models;
  pct = share 10_000 usd total;
}

abbrev pub to_day : Segments → ℕ → ℕ × Segments → Day
to_day models highest (day, segs) = record {
  day = day;
  total = sum_of value_of segs;
  height_pct = share 1_000 (sum_of value_of segs) highest;
  segments = map (to_segment models (sum_of value_of segs)) (sort_by dearest_first segs);
}

abbrev pub to_entry : Segments → Chars × ℕ → Entry
to_entry models (model, usd) = record {
  model = model;
  color_idx = color_from 0 model models;
  total = usd;
}

abbrev pub earliest_first : ℕ × Segments → ℕ × Segments → Bool
earliest_first (d, s) (e, t) = leb d e

-- The chart of what the loop has summed.
abbrev pub draw : List (ℕ × Segments) × Segments → Chart
draw (days_map, model_total) =
    let models_sorted = sort_by dearest_first model_total in
    record {
      days = map (to_day models_sorted (max_total days_map)) (sort_by earliest_first days_map);
      legend = map (to_entry models_sorted) models_sorted;
      total = sum_of value_of model_total;
    }

-- A day's label is left out: it is the day, as "%m-%d".
unfoldable pub build_cost_chart : List CostRow → Chart
unfolding sort_by add_day add_to round_div
build_cost_chart rows = draw (pivot rows [] [])
