-- ===== src/Dashboard/Views/Activity.antt =====
-- `activity_context` of dashboard/views.py: a page of the audit log, filtered by a text, with the cursor
-- of the next page. `str.lower` and the database's collation are parameters.
pub mod Cursor
pub mod Pages
use agent_bakery.Prelude.{
  ℕ, Bool, true, false, ◌||◌, Option, none, some, String, List, [], ◌∷◌, ◌++◌, leb, length,
  if◌then◌else◌,
}
use agent_bakery.Prelude.Chars.{Chars, strip, is_space, contains}
use agent_bakery.Prelude.Rows.{select}
use agent_bakery.Audit.{AuditRow, Query, query, distinct_actions}

abbrev pub or_nothing : Option Chars → Chars
or_nothing none = []
or_nothing (some t) = t

pub record Filter : Type 0 where
  pub action : Option Chars
  pub actor : Option Chars
  pub q : Option Chars

pub record Activity : Type 0 where
  pub unavailable : Option String
  pub events : List AuditRow
  pub actions : List Chars
  pub filter : Filter
  pub next_before : Option ℕ

abbrev pub last_ts : List AuditRow → Option ℕ
last_ts [] = none
last_ts (r ∷ []) = some r.ts
last_ts (r ∷ s ∷ rows) = last_ts (s ∷ rows)

-- The cursor, from the rows of the page before the text filters them.
abbrev pub next_cursor : ℕ → List AuditRow → Option ℕ
next_cursor limit raw = if leb limit (length raw) then last_ts raw else none

module _ (lowercase : Chars → Chars) where
  -- `f"{actor} {action} {resource or ''}".lower()`
  abbrev pub hay : AuditRow → Chars
  hay r = lowercase (r.actor ++ (b' ' ∷ (r.action ++ (b' ' ∷ or_nothing r.resource))))

  -- Whether a row is shown: each is where the text is None or empty.
  unfoldable pub is_shown : Option Chars → AuditRow → Bool
  unfolding strip contains
  is_shown none r = true
  is_shown (some []) r = true
  is_shown (some (c ∷ s)) r = contains (lowercase (strip is_space (c ∷ s))) (hay r)

abbrev pub query_of : String → Filter → Option ℕ → Query
query_of tenant f before = record {
  tenant_id = tenant;
  action = f.action;
  actor = f.actor;
  resource = none;
  before = before;
}

-- The pool is `none` where the database was unreachable at boot.
unfoldable pub activity_context :
    (Chars → Chars)
    → (Chars → Chars → Bool)
    → Option (List AuditRow)
    → String
    → Filter
    → Option ℕ
    → ℕ
    → Activity
unfolding is_shown query distinct_actions
activity_context lowercase collate none tenant f before limit = record {
  unavailable = some "database is unavailable";
  events = [];
  actions = [];
  filter = f;
  next_before = none;
}
activity_context lowercase collate (some log) tenant f before limit =
    let raw = query (query_of tenant f before) limit log in
    record {
      unavailable = none;
      events = select (is_shown lowercase f.q) raw;
      actions = distinct_actions collate tenant log;
      filter = f;
      next_before = next_cursor limit raw;
    }

-- `{% elif events %}` and `{% if next_before %}`: a page without events shows no cursor.
abbrev pub link_under : List AuditRow → Option ℕ → Option ℕ
link_under [] cursor = none
link_under (r ∷ rows) cursor = cursor

-- The cursor of the form "load older" of templates/partials/activity.html, where the page has one.
unfoldable pub older_link : Activity → Option ℕ
older_link page = elim page.unavailable [
  | some reason ↦ none
  | none ↦ link_under page.events page.next_before
]
