-- ===== src/Monitoring/Signal.antt =====
-- `Signal` of monitoring_agent/collectors.py.
use agent_bakery.Prelude.{ℕ, String, Option}
use agent_bakery.Prelude.Int.{ℤ}
use agent_bakery.Prelude.Dict.{Dict}

-- The values of a signal's `meta`.
pub data Value : Type 0 where
  null : Value
  num : ℕ → Value
  int : ℤ → Value
  real : ℕ → Value
  str : String → Value

pub record Signal : Type 0 where
  pub source : String
  pub fingerprint : String
  pub title : String
  pub body : String
  pub suggested_severity : String
  pub url : Option String
  pub meta : Dict Value
