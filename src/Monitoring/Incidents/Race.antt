-- ===== src/Monitoring/Incidents/Race.antt =====
-- Upserts of monitoring_agent/store.py that overlap: `upsert` runs a SELECT and then an INSERT, each of
-- them atomic in the database, and the statements of other upserts may come between the two.
use agent_bakery.Prelude.{
  ℕ, suc, ◌+◌, String, ◌≡◌, ◌≢◌, ◌↔◌, refl, ap, sym, ◌∙◌, true, Option, none, some, List, [], ◌∷◌,
  ◌++◌, ◌==◌, if◌then◌else◌, arith, eq_iff,
}
use agent_bakery.Prelude.Dict.{lookup, lookup-insert}
use agent_bakery.Monitoring.Incidents.{
  Row, Report, Incident, Incidents, opened, bumped, written, select_last_seen, insert_or_bump,
  to_incident, upsert,
}

-- The statements of upserts of one dedup key, each with the number of its upsert.
pub data Statement : Type 0 where
  selects : ℕ → Statement
  inserts : ℕ → Report → ℕ → Statement

-- The table, and what each SELECT returned, the last first.
pub record Session : Type 0 where
  pub table : Incidents
  pub reads : List (ℕ × Option ℕ)

-- `prev` of an upsert.
abbrev pub read_of : ℕ → List (ℕ × Option ℕ) → Option ℕ
read_of k [] = none
read_of k ((j, prev) ∷ reads) = if j == k then prev else read_of k reads

-- The INSERT of an upsert: the incident that the upsert returns, and the table.
unfoldable pub insert_after : String → ℕ → Report → ℕ → Session → Incident × Incidents
insert_after key k r now s =
    let (row, t) = insert_or_bump key r now s.table in (to_incident key (read_of k s.reads) row, t)

-- The statements in the order in which the database runs them.
unfoldable pub run : String → List Statement → Session → Session
run key [] s = s
run key (selects k ∷ rest) s =
    run key rest (record s { reads = (k, select_last_seen key s.table) ∷ s.reads })
run key (inserts k r now ∷ rest) s =
    run key rest (record s { table = (insert_after key k r now s).1 })

-- An upsert that nothing comes between is `upsert`.
lone_upsert :
    (key : String) (k : ℕ) (r : Report) (now : ℕ) (s : Session)
    → insert_after key k r now (run key (selects k ∷ []) s) ≡ upsert key r now s.table
unfolding insert_after run upsert
lone_upsert key k r now s = ground arith

-- How many INSERTs there are.
abbrev pub inserted : List Statement → ℕ
inserted [] = 0
inserted (selects k ∷ rest) = inserted rest
inserted (inserts k r now ∷ rest) = suc (inserted rest)

-- An upsert runs no SELECT.
abbrev pub SelectsNot : ℕ → List Statement → Type 0
SelectsNot k [] = Unit
SelectsNot k (selects j ∷ rest) = (j ≢ k) × SelectsNot k rest
SelectsNot k (inserts j r now ∷ rest) = SelectsNot k rest

abbrev pub count_of : Option Row → ℕ
count_of none = 0
count_of (some row) = row.count

run-append :
    (key : String) (xs ys : List Statement) (s : Session)
    → run key (xs ++ ys) s ≡ run key ys (run key xs s)
unfolding run
run-append key [] ys s = refl
run-append key (selects k ∷ xs) ys s = run-append key xs ys _
run-append key (inserts k r now ∷ xs) ys s = run-append key xs ys _

inserted-append : (xs ys : List Statement) → inserted (xs ++ ys) ≡ inserted xs + inserted ys
inserted-append [] ys = omega arith
inserted-append (selects k ∷ xs) ys = inserted-append xs ys
inserted-append (inserts k r now ∷ xs) ys = omega (arith, inserted-append xs ys)

-- The row after an INSERT.
insert-lookup :
    (key : String) (k : ℕ) (r : Report) (now : ℕ) (s : Session)
    → lookup key (insert_after key k r now s).1.rows
      ≡ some (written (lookup key s.table.rows) s.table.next_id r now)
unfolding insert_after insert_or_bump
insert-lookup key k r now s = lookup-insert key key _ s.table.rows ∙ ground (arith, eq_iff key key)

written-count :
    (o : Option Row) (id : ℕ) (r : Report) (now : ℕ) → (written o id r now).count ≡ suc (count_of o)
unfolding written opened bumped
written-count none id r now = refl
written-count (some row) id r now = omega arith

run-count :
    (key : String) (xs : List Statement) (s : Session)
    → count_of (lookup key (run key xs s).table.rows)
      ≡ count_of (lookup key s.table.rows) + inserted xs
unfolding run
run-count key [] s = omega arith
run-count key (selects k ∷ xs) s = run-count key xs _
run-count key (inserts k r now ∷ xs) s =
    let ih = run-count key xs (record s { table = (insert_after key k r now s).1 }) in
    let here : count_of (lookup key (insert_after key k r now s).1.rows)
        ≡ suc (count_of (lookup key s.table.rows)) =
      ap count_of (insert-lookup key k r now s)
      ∙ written-count (lookup key s.table.rows) s.table.next_id r now in
    omega (arith, ih, here)

-- A row that is there stays there.
run-stays :
    (key : String) (xs : List Statement) (s : Session)
    → lookup key s.table.rows ≢ none
    → lookup key (run key xs s).table.rows ≢ none
unfolding run
run-stays key [] s there = there
run-stays key (selects k ∷ xs) s there = run-stays key xs _ there
run-stays key (inserts k r now ∷ xs) s there =
    run-stays key xs (record s { table = (insert_after key k r now s).1 })
      (λ e. ground (arith, insert-lookup key k r now s, e))

run-absent_iff :
    (key : String) (xs : List Statement) (s : Session)
    → (lookup key (run key xs s).table.rows ≡ none)
      ↔ ((lookup key s.table.rows ≡ none) × (inserted xs ≡ 0))
unfolding run
run-absent_iff key [] s = (λ e. (e, refl), λ h. h.0)
run-absent_iff key (selects k ∷ xs) s = run-absent_iff key xs _
run-absent_iff key (inserts k r now ∷ xs) s = (
  λ e. absurd (
      run-stays key xs (record s { table = (insert_after key k r now s).1 })
        (λ q. ground (arith, insert-lookup key k r now s, q)) e),
  λ h. absurd (omega (arith, h.1)),
)

run-reads :
    (key : String) (k : ℕ) (xs : List Statement) (s : Session)
    → SelectsNot k xs
    → read_of k (run key xs s).reads ≡ read_of k s.reads
unfolding run
run-reads key k [] s h = refl
run-reads key k (selects j ∷ xs) s h = run-reads key k xs _ h.1 ∙ ground (arith, h.0)
run-reads key k (inserts j r now ∷ xs) s h = run-reads key k xs _ h

select-none_iff :
    (key : String) (t : Incidents) → (select_last_seen key t ≡ none) ↔ (lookup key t.rows ≡ none)
select-none_iff key t = (λ h. ground (arith, h), λ h. ground (arith, h))

incident-row : (key : String) (prev : Option ℕ) (row : Row) → (to_incident key prev row).row ≡ row
unfolding to_incident
incident-row key none row = refl
incident-row key (some p) row = refl

new_iff :
    (key : String) (prev : Option ℕ) (row : Row)
    → ((to_incident key prev row).is_new ≡ true) ↔ (prev ≡ none)
unfolding to_incident
new_iff key none row = (λ h. refl, λ h. refl)
new_iff key (some p) row = (λ h. cc, λ h. cc)

-- Upserts of one dedup key that overlap, in any number and any order of their statements, with no others
-- between and one SELECT for each: the count that an upsert returns is that of the row at the start and
-- one for each INSERT up to its own, so no occurrence is lost. An upsert is told that the incident is new
-- exactly when the key had no row at the start and no INSERT came before its SELECT, so that several may
-- be told so.
pub overlapping_upserts :
    (key : String) (k : ℕ) (r : Report) (now : ℕ) (before between : List Statement) (s : Session)
    → SelectsNot k between
    → let incident = (insert_after key k r now (run key (before ++ (selects k ∷ between)) s)).0 in
      (incident.row.count
        ≡ count_of (lookup key s.table.rows) + inserted before + inserted between + 1)
      × ((incident.is_new ≡ true) ↔ ((lookup key s.table.rows ≡ none) × (inserted before ≡ 0)))
unfolding insert_after insert_or_bump run
overlapping_upserts key k r now before between s once =
    let all = before ++ (selects k ∷ between) in
    let at_select = run key before s in
    let selected : Session = record at_select {
      reads = (k, select_last_seen key at_select.table) ∷ at_select.reads;
    } in
    let at_insert = run key all s in
    let row = written (lookup key at_insert.table.rows) at_insert.table.next_id r now in
    let seen : read_of k at_insert.reads ≡ select_last_seen key at_select.table =
      ap (λ (u : Session). read_of k u.reads) (run-append key before (selects k ∷ between) s)
      ∙ run-reads key k between selected once
      ∙ ground arith in
    let counted : row.count ≡ suc (count_of (lookup key at_insert.table.rows)) =
      written-count (lookup key at_insert.table.rows) at_insert.table.next_id r now in
    let (told, is_told) = new_iff key (read_of k at_insert.reads) row in
    let (absent, unread) = select-none_iff key at_select.table in
    let (start, still) = run-absent_iff key before s in
    (
      ap Row.count (incident-row key (read_of k at_insert.reads) row)
          ∙ omega
              (arith, counted, run-count key all s, inserted-append before (selects k ∷ between)),
      (λ h. start (absent (sym seen ∙ told h)), λ h. is_told (seen ∙ unread (still h))),
    )
