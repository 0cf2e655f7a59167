-- ===== src/Dashboard/Store/Rollup.antt =====
-- What the daily roll-up of the costs holds, against the history of the reports.
pub mod Covers
pub mod Repair
pub mod History
pub mod Totals
use Prim.Native.Nat.{max}
use agent_bakery.Prelude.{
  ℕ, ◌≡◌, refl, ◌↔◌, true, Option, none, some, List, [], ◌∷◌, ◌++◌, arith, if◌then◌else◌,
}
use agent_bakery.Prelude.Chars.{same_text_iff}
use agent_bakery.Dashboard.Store.{DailyKey}
use agent_bakery.Dashboard.Store.Costs.{same_key, rollup_upsert, upsert_all, grouped}

-- Amounts by key: rows of the table, or reports.
abbrev pub Amounts : Type 0
Amounts = List (DailyKey × ℕ)

-- The amount of a key's row.
abbrev pub spent_on : DailyKey → Amounts → Option ℕ
spent_on k [] = none
spent_on k ((j, usd) ∷ rows) = if same_key j k then some usd else spent_on k rows

-- The greater of what is known and what is reported.
abbrev pub greater : Option ℕ → Option ℕ → Option ℕ
greater none b = b
greater (some a) none = some a
greater (some a) (some b) = some (max a b)

-- The greatest amount that was reported for a key.
abbrev pub peak : DailyKey → Amounts → Option ℕ
peak k [] = none
peak k ((j, usd) ∷ h) = if same_key j k then greater (some usd) (peak k h) else peak k h

pub same_key_iff : (j k : DailyKey) → (same_key j k ≡ true) ↔ (j ≡ k)
same_key_iff j k = (
  λ h. ground (arith, same_text_iff j.agent k.agent, same_text_iff j.model k.model),
  λ h. ground (arith, same_text_iff j.agent k.agent, same_text_iff j.model k.model),
)

pub greater_comm : (a b : Option ℕ) → greater a b ≡ greater b a
greater_comm a b = ground arith

pub greater_assoc : (a b c : Option ℕ) → greater (greater a b) c ≡ greater a (greater b c)
greater_assoc a b c = ground arith

pub greater_idem : (a : Option ℕ) → greater a a ≡ a
greater_idem a = ground arith

pub spent_on-upsert :
    (k key : DailyKey) (usd : ℕ) (rows : Amounts)
    → spent_on k (rollup_upsert key usd rows)
      ≡ (if same_key key k then greater (spent_on k rows) (some usd) else spent_on k rows)
unfolding rollup_upsert
spent_on-upsert k key usd [] = ground arith
spent_on-upsert k key usd ((j, old) ∷ rows) = ground (
  arith,
  same_key_iff j key,
  same_key_iff key k,
  same_key_iff j k,
  spent_on-upsert k key usd rows,
)

-- Folding rows in, one by one, gives the greatest of what was there and of all rows.
pub spent_on-upsert_all :
    (k : DailyKey) (news rows : Amounts)
    → spent_on k (upsert_all news rows) ≡ greater (spent_on k rows) (peak k news)
unfolding upsert_all
spent_on-upsert_all k [] rows = ground arith
spent_on-upsert_all k ((key, usd) ∷ news) rows = ground (
  arith,
  spent_on-upsert_all k news (rollup_upsert key usd rows),
  spent_on-upsert k key usd rows,
  greater_assoc (spent_on k rows) (some usd) (peak k news),
)

pub peak-append : (k : DailyKey) (h g : Amounts) → peak k (h ++ g) ≡ greater (peak k h) (peak k g)
peak-append k [] g = refl
peak-append k ((j, usd) ∷ h) g =
    ground (arith, peak-append k h g, greater_assoc (some usd) (peak k h) (peak k g))

peak-upsert :
    (k key : DailyKey) (usd : ℕ) (rows : Amounts)
    → peak k (rollup_upsert key usd rows)
      ≡ (if same_key key k then greater (peak k rows) (some usd) else peak k rows)
unfolding rollup_upsert
peak-upsert k key usd [] = ground arith
peak-upsert k key usd ((j, old) ∷ rows) = ground (
  arith,
  same_key_iff j key,
  same_key_iff key k,
  same_key_iff j k,
  peak-upsert k key usd rows,
  greater_comm (peak k rows) (some usd),
  greater_assoc (some old) (some usd) (peak k rows),
  greater_assoc (some old) (peak k rows) (some usd),
)

peak-upsert_all :
    (k : DailyKey) (news rows : Amounts)
    → peak k (upsert_all news rows) ≡ greater (peak k rows) (peak k news)
unfolding upsert_all
peak-upsert_all k [] rows = ground arith
peak-upsert_all k ((key, usd) ∷ news) rows = ground (
  arith,
  peak-upsert_all k news (rollup_upsert key usd rows),
  peak-upsert k key usd rows,
  greater_assoc (peak k rows) (some usd) (peak k news),
)

-- Grouping the events keeps the greatest amount of each key.
pub peak-grouped : (k : DailyKey) (events : Amounts) → peak k (grouped events) ≡ peak k events
unfolding grouped
peak-grouped k events = peak-upsert_all k events []
