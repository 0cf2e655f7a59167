-- ===== src/Audit.antt =====
-- The audit log of agentkit/audit.py: `append`, `query` and `distinct_actions`. Where there is no pool
-- the source returns at once, so the log is what a pool holds; a time is in whole microseconds.
use agent_bakery.Prelude.{
  ℕ, suc, Bool, true, false, ◌&&◌, Option, none, some, String, List, [], ◌∷◌, ◌++◌, take, ltb, leb,
  str_eq, if◌then◌else◌,
}
use agent_bakery.Prelude.Chars.{Chars, same_text}
use agent_bakery.Prelude.Rows.{select, sort_by}

pub record AuditRow : Type 0 where
  pub id : ℕ
  pub tenant_id : String
  pub ts : ℕ
  pub actor : Chars
  pub action : Chars
  pub resource : Option Chars
  pub metadata : List (String × Chars)

-- The rows, and the next id of the sequence.
pub record AuditLog : Type 0 where
  pub rows : List AuditRow
  pub next_id : ℕ

pub record Entry : Type 0 where
  pub actor : Chars
  pub action : Chars
  pub resource : Option Chars
  pub metadata : List (String × Chars)

-- `append`, at a time. An error of the database is swallowed: whether it fails is an argument.
unfoldable pub append : Bool → String → Entry → ℕ → AuditLog → AuditLog
append true tenant e when log = log
append false tenant e when log = record {
  rows =
      log.rows
      ++ (record {
        id = log.next_id;
        tenant_id = tenant;
        ts = when;
        actor = e.actor;
        action = e.action;
        resource = e.resource;
        metadata = e.metadata;
      })
        ∷ [];
  next_id = suc log.next_id;
}

pub record Query : Type 0 where
  pub tenant_id : String
  pub action : Option Chars
  pub actor : Option Chars
  pub resource : Option Chars
  pub before : Option ℕ

-- A clause of the query, which an argument that is None or empty leaves out.
abbrev pub matches_text : Option Chars → Chars → Bool
matches_text none t = true
matches_text (some []) t = true
matches_text (some (c ∷ s)) t = same_text t (c ∷ s)

-- `resource = %s`, which is not true of a NULL.
abbrev pub matches_resource : Option Chars → Option Chars → Bool
matches_resource none r = true
matches_resource (some []) r = true
matches_resource (some (c ∷ s)) none = false
matches_resource (some (c ∷ s)) (some t) = same_text t (c ∷ s)

abbrev pub is_before : Option ℕ → ℕ → Bool
is_before none ts = true
is_before (some cursor) ts = ltb ts cursor

-- The clauses but the one of the cursor.
abbrev pub is_wanted : Query → AuditRow → Bool
is_wanted q r =
    str_eq r.tenant_id q.tenant_id
    && (matches_text q.action r.action
        && (matches_text q.actor r.actor && matches_resource q.resource r.resource))

abbrev pub newest_first : AuditRow → AuditRow → Bool
newest_first r s = leb s.ts r.ts

unfoldable pub query : Query → ℕ → List AuditRow → List AuditRow
unfolding sort_by
query q limit rows =
    take limit (sort_by newest_first (select (λ r. is_wanted q r && is_before q.before r.ts) rows))

abbrev pub add_action : Chars → List Chars → List Chars
add_action a [] = a ∷ []
add_action a (b ∷ bs) = if same_text a b then b ∷ bs else b ∷ add_action a bs

abbrev pub actions_of : List AuditRow → List Chars
actions_of [] = []
actions_of (r ∷ rows) = add_action r.action (actions_of rows)

-- `SELECT DISTINCT action … ORDER BY action`, by the database's collation.
unfoldable pub distinct_actions : (Chars → Chars → Bool) → String → List AuditRow → List Chars
unfolding sort_by
distinct_actions collate tenant rows =
    sort_by collate (actions_of (select (λ (r : AuditRow). str_eq r.tenant_id tenant) rows))
