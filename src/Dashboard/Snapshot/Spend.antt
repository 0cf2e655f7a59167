-- ===== src/Dashboard/Snapshot/Spend.antt =====
-- What the daily roll-up holds of the agents' spend after any turns of the loops of dashboard/api.py.
use mathlib.Core.List.{append-nil}
use agent_bakery.Prelude.{
  ℕ, ◌≡◌, refl, Option, none, some, List, [], ◌∷◌, ◌++◌, str_eq, if◌then◌else◌, Bool-cases, inl,
  inr, ap, sym, ◌∙◌,
}
use agent_bakery.Prelude.Dict.{Dict}
use agent_bakery.Prelude.Chars.{Chars}
use agent_bakery.Dashboard.Store.{Tables}
use agent_bakery.Dashboard.Store.Costs.{agent_total_model, daily_key}
use agent_bakery.Dashboard.Store.Rollup.{Amounts, spent_on, peak}
use agent_bakery.Dashboard.Store.Rollup.History.{
  Op, beat, cost, cost_by_model, rollup, prune, step, after, reports, no_tables,
}
use agent_bakery.Dashboard.Store.Rollup.Totals.{totals, total_key, total_row-IsPeak}
use agent_bakery.Dashboard.Snapshot.{
  Tile, agent_of, heartbeat_of, items_of, record_total, record_split, record_tile, snapshot,
  prune_turn, Turn, snapshotted, pruned, take_turn, take_turns,
}

abbrev pub total_of : Tile → Option ℕ → Amounts
total_of h none = []
total_of h (some usd) = (daily_key (agent_of h) agent_total_model h.cost_at, usd) ∷ []

-- The spend that a tile shows, if it is not the dashboard's own and shows some.
abbrev pub spend_of : Tile → Amounts
spend_of h =
    if str_eq h.health.spec.kind "self" then [] else total_of h h.health.metrics.llm_cost_usd_today

abbrev pub shown_spend : List Tile → Amounts
shown_spend [] = []
shown_spend (h ∷ tiles) = spend_of h ++ shown_spend tiles

abbrev pub shown_in : List Turn → Amounts
shown_in [] = []
shown_in (snapshotted tiles ∷ turns) = shown_spend tiles ++ shown_in turns
shown_in (pruned now days ∷ turns) = shown_in turns

after-append : (xs ys : List (ℕ × Op)) (t : Tables) → after (xs ++ ys) t ≡ after ys (after xs t)
unfolding after
after-append [] ys t = refl
after-append ((now, op) ∷ xs) ys t = after-append xs ys (step now op t)

totals-append : (xs ys : List (ℕ × Op)) → totals (xs ++ ys) ≡ totals xs ++ totals ys
totals-append [] ys = refl
totals-append ((now, beat b ts) ∷ xs) ys = totals-append xs ys
totals-append ((now, cost agent usd ts) ∷ xs) ys =
    ap (λ rest. reports now (cost agent usd ts) ++ rest) (totals-append xs ys)
totals-append ((now, cost_by_model agent items ts) ∷ xs) ys = totals-append xs ys
totals-append ((now, rollup) ∷ xs) ys = totals-append xs ys
totals-append ((now, prune days) ∷ xs) ys = totals-append xs ys

total_ops : Tile → Option ℕ → List (ℕ × Op)
total_ops h none = []
total_ops h (some usd) = (h.cost_at, cost (agent_of h) (some usd) none) ∷ []

split_ops : Tile → Option (Dict ℕ) → List (ℕ × Op)
split_ops h none = []
split_ops h (some []) = []
split_ops h (some (item ∷ by_model)) =
    (h.models_at, cost_by_model (agent_of h) (items_of (item ∷ by_model)) none) ∷ []

-- The writes of a tile.
tile_ops : Tile → List (ℕ × Op)
tile_ops h =
    if str_eq h.health.spec.kind "self"
    then []
    else (h.beat_at, beat (heartbeat_of h) none)
      ∷ (total_ops h h.health.metrics.llm_cost_usd_today
          ++ split_ops h h.health.metrics.cost_by_model_today)

record_total-after :
    (h : Tile) (o : Option ℕ) (t : Tables) → record_total h o t ≡ after (total_ops h o) t
unfolding total_ops after step
record_total-after h none t = refl
record_total-after h (some usd) t = refl

record_split-after :
    (h : Tile) (o : Option (Dict ℕ)) (t : Tables) → record_split h o t ≡ after (split_ops h o) t
unfolding split_ops after step
record_split-after h none t = refl
record_split-after h (some []) t = refl
record_split-after h (some (item ∷ by_model)) t = refl

record_tile-after : (h : Tile) (t : Tables) → record_tile h t ≡ after (tile_ops h) t
unfolding record_tile tile_ops after step
record_tile-after h t = elim (Bool-cases (str_eq h.health.spec.kind "self")) [
  | inl own ↦ rw own refl
  | inr other ↦
      let beaten = step h.beat_at (beat (heartbeat_of h) none) t in
      let o = h.health.metrics.llm_cost_usd_today in
      let m = h.health.metrics.cost_by_model_today in
      rw other (
        ap (record_split h m) (record_total-after h o beaten)
        ∙ record_split-after h m (after (total_ops h o) beaten)
        ∙ sym (after-append (total_ops h o) (split_ops h m) beaten))
]

total_ops-totals : (h : Tile) (o : Option ℕ) → totals (total_ops h o) ≡ total_of h o
unfolding total_ops
total_ops-totals h none = refl
total_ops-totals h (some usd) = refl

split_ops-totals : (h : Tile) (o : Option (Dict ℕ)) → totals (split_ops h o) ≡ []
unfolding split_ops
split_ops-totals h none = refl
split_ops-totals h (some []) = refl
split_ops-totals h (some (item ∷ by_model)) = refl

tile-totals : (h : Tile) → totals (tile_ops h) ≡ spend_of h
unfolding tile_ops
tile-totals h = elim (Bool-cases (str_eq h.health.spec.kind "self")) [
  | inl own ↦ rw own refl
  | inr other ↦
      let o = h.health.metrics.llm_cost_usd_today in
      let m = h.health.metrics.cost_by_model_today in
      rw other (
        totals-append (total_ops h o) (split_ops h m)
        ∙ ap (λ rest. totals (total_ops h o) ++ rest) (split_ops-totals h m)
        ∙ append-nil (totals (total_ops h o))
        ∙ total_ops-totals h o)
]

-- The writes of the turns.
snapshot_ops : List Tile → List (ℕ × Op)
snapshot_ops [] = []
snapshot_ops (h ∷ tiles) = tile_ops h ++ snapshot_ops tiles

turn_ops : Turn → List (ℕ × Op)
turn_ops (snapshotted tiles) = snapshot_ops tiles
turn_ops (pruned now days) = (now, rollup) ∷ (now, prune days) ∷ []

turns_ops : List Turn → List (ℕ × Op)
turns_ops [] = []
turns_ops (turn ∷ turns) = turn_ops turn ++ turns_ops turns

snapshot-after : (tiles : List Tile) (t : Tables) → snapshot tiles t ≡ after (snapshot_ops tiles) t
unfolding snapshot snapshot_ops after
snapshot-after [] t = refl
snapshot-after (h ∷ tiles) t =
    snapshot-after tiles (record_tile h t)
    ∙ ap (after (snapshot_ops tiles)) (record_tile-after h t)
    ∙ sym (after-append (tile_ops h) (snapshot_ops tiles) t)

take_turn-after : (turn : Turn) (t : Tables) → take_turn turn t ≡ after (turn_ops turn) t
unfolding turn_ops prune_turn after step
take_turn-after (snapshotted tiles) t = snapshot-after tiles t
take_turn-after (pruned now days) t = refl

take_turns-after : (turns : List Turn) (t : Tables) → take_turns turns t ≡ after (turns_ops turns) t
unfolding turns_ops after
take_turns-after [] t = refl
take_turns-after (turn ∷ turns) t =
    take_turns-after turns (take_turn turn t)
    ∙ ap (after (turns_ops turns)) (take_turn-after turn t)
    ∙ sym (after-append (turn_ops turn) (turns_ops turns) t)

snapshot-totals : (tiles : List Tile) → totals (snapshot_ops tiles) ≡ shown_spend tiles
unfolding snapshot_ops
snapshot-totals [] = refl
snapshot-totals (h ∷ tiles) =
    totals-append (tile_ops h) (snapshot_ops tiles)
    ∙ ap (λ first. first ++ totals (snapshot_ops tiles)) (tile-totals h)
    ∙ ap (λ rest. spend_of h ++ rest) (snapshot-totals tiles)

turns-totals : (turns : List Turn) → totals (turns_ops turns) ≡ shown_in turns
unfolding turns_ops turn_ops
turns-totals [] = refl
turns-totals (snapshotted tiles ∷ turns) =
    totals-append (snapshot_ops tiles) (turns_ops turns)
    ∙ ap (λ first. first ++ totals (turns_ops turns)) (snapshot-totals tiles)
    ∙ ap (λ rest. shown_spend tiles ++ rest) (turns-totals turns)
turns-totals (pruned now days ∷ turns) = turns-totals turns

-- From empty tables, after any turns of the two loops, snapshots of any tiles and prunes, the roll-up has
-- for each agent and day the greatest spend of the day that a tile of the agent showed, and no row where
-- no tile did: the repairs and the prunes change nothing of it, the splits by model neither, and the
-- dashboard's own tile is left out.
pub spend_is_kept :
    (turns : List Turn) (agent : Chars) (day : ℕ)
    → spent_on (total_key agent day) (take_turns turns no_tables).cost_daily
      ≡ peak (total_key agent day) (shown_in turns)
spend_is_kept turns agent day =
    ap (λ (t : Tables). spent_on (total_key agent day) t.cost_daily)
      (take_turns-after turns no_tables)
    ∙ total_row-IsPeak (turns_ops turns) agent day
    ∙ ap (peak (total_key agent day)) (turns-totals turns)
