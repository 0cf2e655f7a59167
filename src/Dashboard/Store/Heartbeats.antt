-- ===== src/Dashboard/Store/Heartbeats.antt =====
-- `recent_heartbeats` of dashboard/store.py, and what it returns.
use mathlib.Core.List.{reverse}
use agent_bakery.Prelude.{ℕ, ◌+◌, ◌*◌, Bool, true, ◌&&◌, ◌≡◌, Option, List, map, take, ltb, leb}
use agent_bakery.Prelude.Chars.{Chars, same_text}
use agent_bakery.Prelude.Rows.{select, sort_by, In}
use agent_bakery.Dashboard.Store.{hour_us, Heartbeat}

-- A point of the sparkline.
pub record Beat : Type 0 where
  pub ts : ℕ
  pub up : Bool
  pub ready : Option Bool
  pub error_rate_5m : Option ℕ

abbrev pub beat_of : Heartbeat → Beat
beat_of r = record { ts = r.ts; up = r.up; ready = r.ready; error_rate_5m = r.error_rate_5m }

abbrev pub is_recent : Chars → ℕ → ℕ → Heartbeat → Bool
is_recent agent now hours r = same_text r.agent agent && ltb now (r.ts + hours * hour_us)

abbrev pub newest_first : Heartbeat → Heartbeat → Bool
newest_first r s = leb s.ts r.ts

unfoldable pub recent_heartbeats : ℕ → Chars → ℕ → ℕ → List Heartbeat → List Beat
unfolding sort_by
recent_heartbeats now agent hours limit rows =
    reverse
      (map beat_of (take limit (sort_by newest_first (select (is_recent agent now hours) rows))))

abbrev pub oldest_first : Beat → Beat → Bool
oldest_first b c = leb b.ts c.ts

-- A row of the table that is the agent's and within the window, which a point shows.
abbrev pub Shows : ℕ → Chars → ℕ → List Heartbeat → Beat → Type 0
Shows now agent hours rows b =
    (s : Heartbeat) × In s rows × (is_recent agent now hours s ≡ true) × (beat_of s ≡ b)

module _ (now : ℕ) (agent : Chars) (hours limit : ℕ) (rows : List Heartbeat) where
  abbrev sorted : List Heartbeat
  sorted = sort_by newest_first (select (is_recent agent now hours) rows)
