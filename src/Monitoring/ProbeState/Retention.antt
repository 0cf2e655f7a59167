-- ===== src/Monitoring/ProbeState/Retention.antt =====
-- Pruning of the table agent_probe_state in monitoring_agent/store.py.
use agent_bakery.Prelude.{
  ℕ, ◌+◌, ◌≤◌, ◌<◌, String, ◌≡◌, refl, Option, none, some, [], ◌∷◌, arith, eq_iff, if◌then◌else◌,
  length,
}
use agent_bakery.Prelude.Dict.{lookup, IsDict}
use agent_bakery.Monitoring.ProbeState.{ProbeState, Table, is_stale, delete_stale, prune}

abbrev pub kept : ℕ → ℕ → Option ProbeState → Option ProbeState
kept n now none = none
kept n now (some row) = if is_stale n now row then none else some row

lookup-delete_stale :
    (n now : ℕ) (t : String) (table : Table)
    → IsDict table
    → lookup t (delete_stale n now table) ≡ kept n now (lookup t table)
unfolding delete_stale
lookup-delete_stale n now t [] h = refl
lookup-delete_stale n now t ((k, row) ∷ table) h =
    ground (arith, eq_iff k t, lookup-delete_stale n now t table h.1)

length-delete_stale : (n now : ℕ) (table : Table) → length (delete_stale n now table) ≤ length table
unfolding delete_stale
length-delete_stale n now [] = omega arith
length-delete_stale n now ((k, row) ∷ table) = ground (arith, length-delete_stale n now table)

-- A prune forgets exactly the rows that were last written more than the retention before now, keeps
-- every other row unchanged, and reports how many rows are gone; a retention of 0 days turns it off.
pub prune_exact :
    (n now : ℕ) (t : String) (table : Table)
    → IsDict table
    → (prune 0 now table ≡ (0, table))
      × (0 < n → lookup t (prune n now table).1 ≡ kept n now (lookup t table))
      × ((prune n now table).0 + length (prune n now table).1 ≡ length table)
unfolding prune
prune_exact n now t table h = (
  refl,
  λ p. ground (arith, lookup-delete_stale n now t table h),
  ground (arith, length-delete_stale n now table),
)
