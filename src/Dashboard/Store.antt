-- ===== src/Dashboard/Store.antt =====
-- The tables that the dashboard itself keeps: dashboard/store.py. Names are lists of code points,
-- since an agent's name may stand for a model and the models' names are stripped; a time is in whole
-- microseconds since 1970 (UTC), and an amount in millionths of a dollar, to which the source rounds.
mod Tests
pub mod Costs
pub mod Heartbeats
pub mod CostQueries
pub mod Rollup
use agent_bakery.Prelude.{ℕ, Bool, Option, none, some, List}
use agent_bakery.Prelude.Chars.{Chars}

abbrev pub hour_us : ℕ
hour_us = 3_600_000_000

abbrev pub day_us : ℕ
day_us = 86_400_000_000

-- `ts or datetime.now(UTC)`
abbrev pub moment : Option ℕ → ℕ → ℕ
moment (some ts) now = ts
moment none now = now

-- `float(usd or 0.0)`
abbrev pub amount : Option ℕ → ℕ
amount (some usd) = usd
amount none = 0

pub record Heartbeat : Type 0 where
  pub agent : Chars
  pub ts : ℕ
  pub up : Bool
  pub ready : Option Bool
  pub uptime_s : Option ℕ
  pub error_rate_5m : Option ℕ
  pub requests_5m : Option ℕ

pub record CostEvent : Type 0 where
  pub agent : Chars
  pub ts : ℕ
  pub usd_today : ℕ

pub record CostModelEvent : Type 0 where
  pub agent : Chars
  pub model : Chars
  pub ts : ℕ
  pub usd_today : ℕ

-- The primary key of `cost_daily`.
pub record DailyKey : Type 0 where
  pub agent : Chars
  pub model : Chars
  pub day : ℕ

-- The tables of the costs, in the order of insertion; `cost_daily` has one row for each key.
pub record Tables : Type 0 where
  pub heartbeats : List Heartbeat
  pub cost_events : List CostEvent
  pub cost_model_events : List CostModelEvent
  pub cost_daily : List (DailyKey × ℕ)
