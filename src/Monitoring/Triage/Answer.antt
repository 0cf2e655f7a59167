-- ===== src/Monitoring/Triage/Answer.antt =====
-- What monitoring_agent/graph.py reads of the model's JSON answer, and the values that it passes on.
use agent_bakery.Prelude.{ℕ, String, Bool, false, not, str_eq, if◌then◌else◌}

-- A field of the model's JSON answer, as `json.loads` reads it. A missing field is null; a number or a
-- Boolean, and a list or an object, have their truth value and what an f-string prints for them.
pub data Json : Type 0 where
  null : Json
  text : String → Json
  scalar : Bool → String → Json
  container : Bool → String → Json

-- The fields that are read.
pub record Parsed : Type 0 where
  pub severity : Json
  pub category : Json
  pub hypothesis : Json

abbrev pub is_truthy : Json → Bool
is_truthy null = false
is_truthy (text s) = not (str_eq s "")
is_truthy (scalar truth shown) = truth
is_truthy (container truth shown) = truth

-- `f"{value}"`
abbrev pub shown_json : Json → String
shown_json null = "None"
shown_json (text s) = s
shown_json (scalar truth shown) = shown
shown_json (container truth shown) = shown

-- `value or default`, where the default is a text.
abbrev pub or_default : Json → String → Json
or_default value default = if is_truthy value then value else text default

-- The values of an alert's `meta`.
pub data MetaValue : Type 0 where
  number : ℕ → MetaValue
  json : Json → MetaValue
