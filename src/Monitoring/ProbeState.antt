-- ===== src/Monitoring/ProbeState.antt =====
-- `ProbeStateStore` of monitoring_agent/store.py: the table agent_probe_state, one row per target. A
-- statement runs at a time `now` in microseconds, and is atomic.
pub mod Streak
pub mod Retention
use agent_bakery.Prelude.{
  ℕ, suc, ◌+◌, ◌*◌, String, Bool, true, false, Option, none, some, List, [], ◌∷◌, ltb, ◌==◌, length,
  if◌then◌else◌, ◌-◌,
}
use agent_bakery.Prelude.Dict.{Dict, lookup, insert}

pub record ProbeState : Type 0 where
  pub fail_streak : ℕ
  pub last_restart : Option ℕ
  pub last_depth : Option ℕ
  pub updated_at : ℕ

abbrev pub Table : Type 0
Table = Dict ProbeState

-- `ProbeState(target=target)`, and the defaults of the columns.
abbrev pub unseen : ProbeState
unseen = record { fail_streak = 0; last_restart = none; last_depth = none; updated_at = 0 }

abbrev pub or_unseen : Option ProbeState → ProbeState
or_unseen none = unseen
or_unseen (some row) = row

unfoldable pub get : String → Table → ProbeState
get target table = or_unseen (lookup target table)

-- Each method returns its result and the table after it.
unfoldable pub next_streak : Option ProbeState → Bool → ℕ
next_streak none ok = if ok then 0 else 1
next_streak (some row) ok = if ok then 0 else row.fail_streak + 1

unfoldable pub record_endpoint : String → Bool → ℕ → Table → ℕ × Table
unfolding next_streak
record_endpoint target ok now table =
    let streak = next_streak (lookup target table) ok in
    let row = or_unseen (lookup target table) in
    (streak, insert target (record row { fail_streak = streak; updated_at = now }) table)

abbrev previous : Option ProbeState → (ProbeState → Option ℕ) → Option ℕ
previous none column = none
previous (some row) column = column row

unfoldable pub record_restart : String → ℕ → ℕ → Table → Option ℕ × Table
record_restart target restart_count now table =
    let row = or_unseen (lookup target table) in
    (
      previous (lookup target table) (λ r. r.last_restart),
      insert target (record row { last_restart = some restart_count; updated_at = now }) table,
    )

unfoldable pub record_depth : String → ℕ → ℕ → Table → Option ℕ × Table
record_depth target depth now table =
    let row = or_unseen (lookup target table) in
    (
      previous (lookup target table) (λ r. r.last_depth),
      insert target (record row { last_depth = some depth; updated_at = now }) table,
    )

-- `make_interval(days => n)`
abbrev pub days : ℕ → ℕ
days n = n * 86400000000

-- `updated_at < now() - make_interval(days => n)`
abbrev pub is_stale : ℕ → ℕ → ProbeState → Bool
is_stale n now row = ltb (row.updated_at + days n) now

unfoldable pub delete_stale : ℕ → ℕ → Table → Table
delete_stale n now [] = []
delete_stale n now ((target, row) ∷ table) =
    let rest = delete_stale n now table in if is_stale n now row then rest else (target, row) ∷ rest

-- The rows deleted, and the table after.
unfoldable pub prune : ℕ → ℕ → Table → ℕ × Table
unfolding delete_stale
prune retention_days now table = if retention_days == 0 then (0, table) else (
  length table - length (delete_stale retention_days now table),
  delete_stale retention_days now table,
)
