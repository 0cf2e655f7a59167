-- ===== src/Dashboard/Views/Chart/Bars.antt =====
-- The heights of the bars and the shares of their segments in the chart of dashboard/views.py.
use Prim.Native.Nat.{max}
use native.Mathlib.Nat.{
  mul-le-mul_left, mul-le-mul_right, mul-div_cancel_left, mul-mod_right, mod-lt, div-add-mod,
}
use native.Mathlib.Decide.{dec_lt}
use agent_bakery.Prelude.{
  ℕ, suc, ◌+◌, ◌*◌, ◌/◌, ◌%◌, ◌≤◌, ◌<◌, ◌≡◌, refl, List, [], ◌∷◌, map, ◌==◌, arith, ap, false,
  Bool-cases, inl, inr, ◌⊎◌,
}
use agent_bakery.Prelude.Rows.{sort_by, AllOf, AllOf-map, In, sum_of, sort_by-AllOf, sort_by-In}
use agent_bakery.Prelude.Reversed.{map-In}
use agent_bakery.Prelude.Groups.{value_of}
use agent_bakery.Dashboard.Store.CostQueries.{CostRow}
use agent_bakery.Dashboard.Views.Chart.{
  Segments, round_div, pivot, total_of, max_total, Segment, Day, dearest_first, earliest_first,
  share, to_segment, to_day, build_cost_chart,
}
use agent_bakery.Dashboard.Views.Chart.Balance.{sum-pivot}

-- The bound on a quotient with a remainder.
quotient_le : (q r b p : ℕ) → r < b → b * q + r ≤ b * p → (q < p) ⊎ (q ≡ p) × (r ≡ 0)
quotient_le q r b p h k = elim (dec_lt q p) [
  | yes less ↦ inl less
  | no more ↦ elim (dec_lt p q) [
    | yes above ↦ absurd (grind (arith, mul-le-mul_left {m = suc p} {n = q} b above))
    | no same ↦ let e : q ≡ p = omega arith in inr (e, omega (arith, ap (λ (t : ℕ). b * t) e))
  ]
]

round_div-le : (a b p : ℕ) → 0 < b → a ≤ b * p → round_div a b ≤ p
unfolding round_div
round_div-le a b p h k =
    elim (quotient_le (a / b) (a % b) b p (mod-lt a h) (omega (arith, div-add-mod a b))) [
      | inl less ↦ ground arith
      | inr (full, whole) ↦ ground arith
    ]

round_div-mul : (b p : ℕ) → 0 < b → round_div (b * p) b ≡ p
unfolding round_div
round_div-mul b p h = ground (arith, mul-div_cancel_left p h, mul-mod_right b p)

share-le : (parts part whole : ℕ) → part ≤ whole → share parts part whole ≤ parts
share-le parts part whole h = elim (Bool-cases (whole == 0)) [
  | inl empty ↦ rw empty (omega arith)
  | inr some_ ↦
      rw some_ (round_div-le (part * parts) whole parts (ground arith) (mul-le-mul_right parts h))
]

share_full : (parts whole : ℕ) → 0 < whole → share parts whole whole ≡ parts
share_full parts whole h =
    let apart : (whole == 0) ≡ false = ground arith in rw apart (round_div-mul whole parts h)

total_of-le-max : (days : List (ℕ × Segments)) → AllOf (λ d. total_of d ≤ max_total days) days
total_of-le-max [] = tt
total_of-le-max (d ∷ days) = (
  omega arith,
  AllOf-map (λ e. total_of e ≤ max_total days) (λ e. total_of e ≤ max (total_of d) (max_total days))
      days (λ e h. omega arith) (total_of-le-max days),
)

value-le-sum : (segs : Segments) → AllOf (λ s. value_of s ≤ sum_of value_of segs) segs
value-le-sum [] = tt
value-le-sum ((m, v) ∷ segs) = (
  omega arith,
  AllOf-map (λ s. value_of s ≤ sum_of value_of segs) (λ s. value_of s ≤ v + sum_of value_of segs)
      segs (λ s h. omega arith) (value-le-sum segs),
)

-- The day of the greatest total.
tallest :
    (days : List (ℕ × Segments))
    → 0 < max_total days
    → (d : ℕ × Segments) × In d days × (total_of d ≡ max_total days)
tallest [] h = absurd (omega arith)
tallest (d ∷ days) h = elim (dec_lt (total_of d) (max_total days)) [
  | yes lower ↦ let (e, m, top) = tallest days (omega arith) in (e, inr m, omega arith)
  | no higher ↦ (d, inl refl, omega arith)
]

max_total-pos : (days : List (ℕ × Segments)) → 0 < sum_of total_of days → 0 < max_total days
max_total-pos [] h = h
max_total-pos (d ∷ days) h = elim (dec_lt 0 (total_of d)) [
  | yes p ↦ omega arith
  | no p ↦ omega (arith, max_total-pos days (omega arith))
]

-- A bar is at most as high as the chart, and its segments at most as high as the bar.
abbrev pub Fits : Day → Type 0
Fits d = (d.height_pct ≤ 1_000) × AllOf (λ (s : Segment). s.pct ≤ 10_000) d.segments

AllOf-map_image :
    {A B : Type 0} (f : A → B) (P : B → Type 0) (xs : List A)
    → AllOf (λ x. P (f x)) xs
    → AllOf P (map f xs)
AllOf-map_image f P [] h = tt
AllOf-map_image f P (x ∷ xs) h = (h.0, AllOf-map_image f P xs h.1)

to_day-Fits :
    (models : Segments) (highest : ℕ) (d : ℕ × Segments)
    → total_of d ≤ highest
    → Fits (to_day models highest d)
to_day-Fits models highest (day, segs) h = (
  share-le 1_000 (sum_of value_of segs) highest h,
  AllOf-map_image (to_segment models (sum_of value_of segs)) (λ (s : Segment). s.pct ≤ 10_000) _
      (sort_by-AllOf _ dearest_first segs (
        AllOf-map (λ s. value_of s ≤ sum_of value_of segs) _ segs
          (λ s le. share-le 10_000 (value_of s) (sum_of value_of segs) le) (value-le-sum segs))),
)

to_day-full :
    (models : Segments) (highest : ℕ) (d : ℕ × Segments)
    → 0 < highest
    → total_of d ≡ highest
    → (to_day models highest d).height_pct ≡ 1_000
to_day-full models highest (day, segs) h e = rw e (share_full 1_000 highest h)

to_day-le :
    (models : Segments) (highest : ℕ) (d : ℕ × Segments)
    → total_of d ≡ highest
    → (e : ℕ × Segments) → total_of e ≤ highest
    → (to_day models highest e).total ≤ (to_day models highest d).total
to_day-le models highest (day, segs) e (day', segs') h = omega (arith, e)

-- Where anything was spent, no bar is higher than the chart and no segment than its bar, and one bar
-- takes the whole height: its total is the greatest of all bars'.
pub chart_bars :
    (rows : List CostRow)
    → 0 < sum_of CostRow.usd rows
    → let days = (build_cost_chart rows).days in
      AllOf Fits days
      × (d : Day) × In d days
      × (d.height_pct ≡ 1_000)
      × AllOf (λ (e : Day). e.total ≤ d.total) days
unfolding build_cost_chart
chart_bars rows h =
    let days = (pivot rows [] []).0 in
    let models = sort_by dearest_first (pivot rows [] []).1 in
    let draw_day = to_day models (max_total days) in
    let ordered = sort_by earliest_first days in
    let some_spent : 0 < max_total days =
      max_total-pos days (omega (arith, (sum-pivot rows [] []).0)) in
    let (d, m, top) = tallest days some_spent in
    (
      AllOf-map_image draw_day Fits ordered (
          sort_by-AllOf (λ e. Fits (draw_day e)) earliest_first days
            (AllOf-map (λ e. total_of e ≤ max_total days) (λ e. Fits (draw_day e)) days
              (to_day-Fits models (max_total days)) (total_of-le-max days))),
      draw_day d,
      map-In draw_day d ordered (sort_by-In earliest_first d days m),
      to_day-full models (max_total days) d some_spent top,
      AllOf-map_image draw_day (λ (e : Day). e.total ≤ (draw_day d).total) ordered
          (sort_by-AllOf (λ e. (draw_day e).total ≤ (draw_day d).total) earliest_first days
            (AllOf-map (λ e. total_of e ≤ max_total days)
              (λ e. (draw_day e).total ≤ (draw_day d).total) days
              (to_day-le models (max_total days) d top) (total_of-le-max days))),
    )
