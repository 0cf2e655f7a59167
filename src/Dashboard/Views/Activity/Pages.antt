-- ===== src/Dashboard/Views/Activity/Pages.antt =====
-- Paging through the activity of dashboard/views.py by its cursors.
use mathlib.Core.List.{append_assoc, append-nil}
use mathlib.Core.Path.{subst}
use native.Mathlib.Decide.{dec_lt}
use agent_bakery.Prelude.{
  ℕ, zero, suc, ◌<◌, Bool, true, false, Option, none, some, String, List, [], ◌∷◌, ◌++◌, ◌⊎◌, inl,
  inr, ◌≡◌, ◌≢◌, refl, take, drop, leb, length, length-take, length-drop, arith, ap, sym, ◌∙◌,
  take-append-drop,
}
use agent_bakery.Prelude.Chars.{Chars}
use agent_bakery.Prelude.Rows.{select, sort_by, sort_by-IsSorted}
use agent_bakery.Prelude.Selected.{select-sort_by, select-and}
use agent_bakery.Audit.{AuditRow, is_before, is_wanted, newest_first, query}
use agent_bakery.Dashboard.Views.Activity.{
  Filter, last_ts, is_shown, query_of, next_cursor, link_under, older_link, activity_context,
}
use agent_bakery.Dashboard.Views.Activity.Cursor.{
  IsStrict, IsDistinct, newest_first-IsOrder, sort-IsDistinct, sorted-IsStrict, select-after,
  page_end, last_ts-append, take_all, select-append, keep_all, split_at,
}

-- What comes after a page: nothing, where there is no cursor.
abbrev pub after : (ℕ → List AuditRow) → Option ℕ → List AuditRow
after pages none = []
after pages (some cursor) = pages cursor

after-prefix :
    (more less : ℕ → List AuditRow)
    → ((c : ℕ) → (missed : List AuditRow) × (more c ≡ less c ++ missed))
    → (cursor : Option ℕ) (events : List AuditRow)
    → (missed : List AuditRow) × (events ++ after more cursor
        ≡ (events ++ after less (link_under events cursor)) ++ missed)
after-prefix more less ih none [] = ([], refl)
after-prefix more less ih none (r ∷ rows) = ([], sym (append-nil _))
after-prefix more less ih (some c) [] = (more c, refl)
after-prefix more less ih (some c) (r ∷ rows) =
    let (missed, e) = ih c in
    (missed, ap (λ l. r ∷ rows ++ l) e ∙ sym (append_assoc (r ∷ rows) _ missed))

select_all :
    (p : AuditRow → Bool) (rows : List AuditRow)
    → ((r : AuditRow) → p r ≡ true)
    → select p rows ≡ rows
select_all p [] all = refl
select_all p (r ∷ rows) all = ground (arith, all r, select_all p rows all)

-- A page that has events where it has a cursor shows it.
after-link :
    (f g : ℕ → List AuditRow) (cursor : Option ℕ) (events : List AuditRow)
    → (cursor ≢ none → events ≢ [])
    → ((c : ℕ) → f c ≡ g c)
    → after f (link_under events cursor) ≡ after g cursor
after-link f g none [] filled h = refl
after-link f g none (r ∷ rows) filled h = refl
after-link f g (some c) [] filled h = absurd (filled (λ e. cc) refl)
after-link f g (some c) (r ∷ rows) filled h = h c

-- Where all rows are shown, a page has events where it has a cursor.
select-Filled :
    (p : AuditRow → Bool) (limit : ℕ) (raw : List AuditRow)
    → ((r : AuditRow) → p r ≡ true)
    → next_cursor (suc limit) raw ≢ none
    → select p raw ≢ []
select-Filled p limit [] all more = absurd (more (ground arith))
select-Filled p limit (r ∷ raw) all more = rw (all r) (λ e. cc)

module _ (lowercase : Chars → Chars) (collate : Chars → Chars → Bool) (tenant : String)
    (f : Filter) where
  -- The pages that a reader sees who presses "load older" from one on, at most so many pages.
  unfoldable pub read : ℕ → Option ℕ → ℕ → List AuditRow → List AuditRow
  read zero before limit log = []
  read (suc fuel) before limit log =
      let page = activity_context lowercase collate (some log) tenant f before limit in
      page.events ++ after (λ cursor. read fuel (some cursor) limit log) (older_link page)

  -- The same with the cursors of the contexts, whether or not the pages show them.
  follow : ℕ → Option ℕ → ℕ → List AuditRow → List AuditRow
  follow zero before limit log = []
  follow (suc fuel) before limit log =
      let page = activity_context lowercase collate (some log) tenant f before limit in
      page.events ++ after (λ cursor. follow fuel (some cursor) limit log) page.next_before

  -- All that the filters by action and actor let through, the newest first.
  abbrev pub wanted : List AuditRow → List AuditRow
  wanted log = sort_by newest_first (select (is_wanted (query_of tenant f none)) log)

  query-cursor :
      (before : Option ℕ) (limit : ℕ) (log : List AuditRow)
      → query (query_of tenant f before) limit log
        ≡ take limit (select (λ (r : AuditRow). is_before before r.ts) (wanted log))
  unfolding query
  query-cursor before limit log = ap (take limit) (
      ap (sort_by newest_first) (
        select-and (is_wanted (query_of tenant f before)) (λ (r : AuditRow). is_before before r.ts)
          log)
      ∙ sym (
          select-sort_by newest_first newest_first-IsOrder (λ (r : AuditRow). is_before before r.ts)
            (select (is_wanted (query_of tenant f none)) log)))

  module _ (n : ℕ) (log : List AuditRow) (strict : IsStrict (wanted log)) where
    follow-rest :
        (fuel : ℕ) (before : Option ℕ) (seen rest : List AuditRow)
        → wanted log ≡ seen ++ rest
        → select (λ (r : AuditRow). is_before before r.ts) (wanted log) ≡ rest
        → length rest < fuel
        → follow fuel before (suc n) log ≡ select (is_shown lowercase f.q) rest
    unfolding follow activity_context
    follow-rest zero before seen rest e s h = absurd (omega arith)
    follow-rest (suc fuel) before seen rest e s h =
        let page = take (suc n) rest in
        let later = drop (suc n) rest in
        let whole = take-append-drop (suc n) rest in
        elim (dec_lt (length page) (suc n)) [
          | yes short ↦
              let test : leb (suc n) (length page) ≡ false = ground arith in
              rw (query-cursor before (suc n) log, s)
                (rw test (
                  append-nil _
                  ∙ ap (select (is_shown lowercase f.q)) (take_all (suc n) rest short)))
          | no full ↦
              let test : leb (suc n) (length page) ≡ true = ground arith in
              let (front, x, ends) = page_end n rest (omega arith) in
              let cursor : last_ts page ≡ some x.ts = ap last_ts ends ∙ last_ts-append front x in
              let split = split_at (wanted log) seen rest front page later x e whole ends in
              let next =
                follow-rest fuel (some x.ts) (seen ++ page) later
                  (e ∙ ap (λ l. seen ++ l) (sym whole) ∙ sym (append_assoc seen page later))
                  (rw split (select-after (seen ++ front) x later (subst IsStrict split strict)))
                  (omega (arith, length-drop (suc n) rest, length-take (suc n) rest)) in
              rw (query-cursor before (suc n) log, s)
                (rw test (
                  rw cursor (
                    ap (λ l. select (is_shown lowercase f.q) page ++ l) next
                    ∙ sym (select-append (is_shown lowercase f.q) page later)
                    ∙ ap (select (is_shown lowercase f.q)) whole)))
        ]

  cursors_complete :
      (n : ℕ) (log : List AuditRow)
      → IsDistinct (select (is_wanted (query_of tenant f none)) log)
      → follow (suc (length (wanted log))) none (suc n) log
        ≡ select (is_shown lowercase f.q) (wanted log)
  cursors_complete n log distinct =
      follow-rest n log
        (sorted-IsStrict (wanted log)
          (sort_by-IsSorted newest_first newest_first-IsOrder
            (select (is_wanted (query_of tenant f none)) log))
          (sort-IsDistinct _ distinct))
        (suc (length (wanted log))) none [] (wanted log) refl (keep_all (wanted log)) (omega arith)

  -- The rows that the links leave out are the last ones.
  read-prefix :
      (fuel : ℕ) (before : Option ℕ) (limit : ℕ) (log : List AuditRow)
      → (missed : List AuditRow) × (follow fuel before limit log
          ≡ read fuel before limit log ++ missed)
  unfolding follow read older_link activity_context
  read-prefix zero before limit log = ([], refl)
  read-prefix (suc fuel) before limit log =
      let raw = query (query_of tenant f before) limit log in
      after-prefix _ _ (λ c. read-prefix fuel (some c) limit log) (next_cursor limit raw)
        (select (is_shown lowercase f.q) raw)

  -- Each page that has a cursor has events.
  abbrev pub Filled : ℕ → List AuditRow → Type 0
  Filled limit log =
      (before : Option ℕ)
      → let page = activity_context lowercase collate (some log) tenant f before limit in
        page.next_before ≢ none → page.events ≢ []

  read_all :
      (fuel : ℕ) (before : Option ℕ) (limit : ℕ) (log : List AuditRow)
      → Filled limit log
      → read fuel before limit log ≡ follow fuel before limit log
  unfolding follow read older_link activity_context
  read_all zero before limit log filled = refl
  read_all (suc fuel) before limit log filled =
      let raw = query (query_of tenant f before) limit log in
      let events = select (is_shown lowercase f.q) raw in
      ap (λ l. events ++ l)
        (after-link _ _ (next_cursor limit raw) events (filled before)
          (λ c. read_all fuel (some c) limit log filled))

  all-Filled :
      (n : ℕ) (log : List AuditRow)
      → ((r : AuditRow) → is_shown lowercase f.q r ≡ true)
      → Filled (suc n) log
  unfolding activity_context
  all-Filled n log all before =
      select-Filled (is_shown lowercase f.q) n (query (query_of tenant f before) (suc n) log) all

  text_shows : (f.q ≡ none) ⊎ (f.q ≡ some []) → (r : AuditRow) → is_shown lowercase f.q r ≡ true
  unfolding is_shown
  text_shows (inl e) r = rw e refl
  text_shows (inr e) r = rw e refl

  -- With filters and a limit of at least one row, and no two rows of one time among those that the
  -- tenant, the action and the actor let through, take a reader who presses "load older" from the first
  -- page on, as often as the pages show it, at most once more than there are such rows. Of those rows, the
  -- reader sees the ones that the text matches, each once, the newest first, but for some of the oldest
  -- that may be missed; and none is missed where each page that has a cursor has a match. Without a text
  -- to search for, the reader sees all those rows.
  pub activity_pages_complete :
      (n : ℕ) (log : List AuditRow)
      → IsDistinct (select (is_wanted (query_of tenant f none)) log)
      → let seen = read (suc (length (wanted log))) none (suc n) log in
        let matching = select (is_shown lowercase f.q) (wanted log) in
        ((missed : List AuditRow) × (matching ≡ seen ++ missed))
        × (Filled (suc n) log → seen ≡ matching)
        × ((f.q ≡ none) ⊎ (f.q ≡ some []) → seen ≡ wanted log)
  activity_pages_complete n log distinct =
      let fuel = suc (length (wanted log)) in
      let complete = cursors_complete n log distinct in
      let (missed, e) = read-prefix fuel none (suc n) log in
      (
        (missed, sym complete ∙ e),
        λ filled. read_all fuel none (suc n) log filled ∙ complete,
        λ h.
            read_all fuel none (suc n) log (all-Filled n log (text_shows h))
            ∙ complete
            ∙ select_all (is_shown lowercase f.q) (wanted log) (text_shows h),
      )
