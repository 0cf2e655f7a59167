-- ===== src/Dashboard/Store/Rollup/Covers.antt =====
-- The events that the roll-up of dashboard/store.py has taken in.
use agent_bakery.Prelude.{ℕ, ◌≡◌, refl, some, List, [], ◌∷◌, ◌++◌, map, arith}
use agent_bakery.Dashboard.Store.{DailyKey}
use agent_bakery.Dashboard.Store.Costs.{delete_older}
use agent_bakery.Dashboard.Store.Rollup.{
  Amounts, greater, peak, greater_comm, greater_assoc, greater_idem, peak-append,
}

-- Every event that is still kept was reported.
abbrev pub Covers : Amounts → Amounts → Type 0
Covers h events = (k : DailyKey) → greater (peak k h) (peak k events) ≡ peak k h

pub Covers-more : (h g events : Amounts) → Covers h events → Covers (h ++ g) events
Covers-more h g events c k = ground (
  arith,
  peak-append k h g,
  c k,
  greater_assoc (peak k h) (peak k g) (peak k events),
  greater_comm (peak k g) (peak k events),
  greater_assoc (peak k h) (peak k events) (peak k g),
)

pub Covers-append : (h g events : Amounts) → Covers h events → Covers (h ++ g) (events ++ g)
Covers-append h g events c k = ground (
  arith,
  peak-append k events g,
  greater_assoc (peak k (h ++ g)) (peak k events) (peak k g),
  Covers-more h g events c k,
  peak-append k h g,
  greater_assoc (peak k h) (peak k g) (peak k g),
  greater_idem (peak k g),
)

peak-delete :
    {A : Type 0} (ts : A → ℕ) (event : A → DailyKey × ℕ) (now days : ℕ) (rows : List A)
    (k : DailyKey)
    → greater (peak k (map event rows)) (peak k (map event (delete_older ts now days rows)))
      ≡ peak k (map event rows)
unfolding delete_older
peak-delete ts event now days [] k = refl
peak-delete ts event now days (row ∷ rows) k =
    let rest = peak k (map event (delete_older ts now days rows)) in
    let whole = peak k (map event rows) in
    let usd = some (event row).1 in
    let ih : greater whole rest ≡ whole = peak-delete ts event now days rows k in
    ground (
      arith,
      ih,
      greater_assoc usd whole rest,
      greater_assoc usd whole (greater usd rest),
      greater_assoc whole usd rest,
      greater_comm whole usd,
      greater_assoc usd usd (greater whole rest),
      greater_assoc usd whole rest,
      greater_idem usd,
    )

pub Covers-delete :
    {A : Type 0} (ts : A → ℕ) (event : A → DailyKey × ℕ) (now days : ℕ) (rows : List A)
    (h : Amounts)
    → Covers h (map event rows)
    → Covers h (map event (delete_older ts now days rows))
Covers-delete ts event now days rows h c k =
    let kept = peak k (map event (delete_older ts now days rows)) in
    cc (
      c k,
      peak-delete ts event now days rows k,
      greater_assoc (peak k h) (peak k (map event rows)) kept,
    )
