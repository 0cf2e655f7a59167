-- ===== src/Dashboard/Views/Activity/Cursor.antt =====
-- Rows of the audit log around a cursor: what the pages of dashboard/views.py are cut out of.
use mathlib.Core.List.{append_assoc}
use agent_bakery.Prelude.{
  ℕ, zero, suc, ◌≤◌, ◌<◌, Bool, true, false, some, List, [], ◌∷◌, ◌++◌, ◌≡◌, ◌≢◌, refl, inl, inr,
  take, ltb, lt→ltb, length, arith, ap, sym, ◌∙◌, Bool-cases,
}
use agent_bakery.Prelude.Rows.{
  select, sort_by, AllOf, AllOf-map, IsSorted, IsOrder, put, put-AllOf, sort_by-AllOf,
}
use agent_bakery.Prelude.Selected.{select_all}
use agent_bakery.Audit.{AuditRow, newest_first}
use agent_bakery.Dashboard.Views.Activity.{last_ts}

-- Newer rows first, and no two of one time.
abbrev pub IsStrict : List AuditRow → Type 0
IsStrict [] = Unit
IsStrict (r ∷ rows) = AllOf (λ (s : AuditRow). s.ts < r.ts) rows × IsStrict rows

abbrev pub IsDistinct : List AuditRow → Type 0
IsDistinct [] = Unit
IsDistinct (r ∷ rows) = AllOf (λ (s : AuditRow). r.ts ≢ s.ts) rows × IsDistinct rows

pub newest_first-IsOrder : IsOrder newest_first
newest_first-IsOrder = record { total = λ x y h. ground arith; trans = λ x y z h k. ground arith }

pub put-IsDistinct :
    (x : AuditRow) (ys : List AuditRow)
    → AllOf (λ (s : AuditRow). x.ts ≢ s.ts) ys
    → IsDistinct ys
    → IsDistinct (put newest_first x ys)
put-IsDistinct x [] h d = (tt, tt)
put-IsDistinct x (y ∷ ys) h d = elim (Bool-cases (newest_first x y)) [
  | inl first ↦ rw first (h, d)
  | inr later ↦ rw later (
    put-AllOf (λ (s : AuditRow). y.ts ≢ s.ts) newest_first x ys (λ e. h.0 (sym e)) d.0,
    put-IsDistinct x ys h.1 d.1,
  )
]

pub sort-IsDistinct :
    (rows : List AuditRow) → IsDistinct rows → IsDistinct (sort_by newest_first rows)
unfolding sort_by
sort-IsDistinct [] d = tt
sort-IsDistinct (r ∷ rows) d =
    put-IsDistinct r (sort_by newest_first rows)
      (sort_by-AllOf (λ (s : AuditRow). r.ts ≢ s.ts) newest_first rows d.0)
      (sort-IsDistinct rows d.1)

pub AllOf-both :
    (P Q R : AuditRow → Type 0) (rows : List AuditRow)
    → ((r : AuditRow) → P r → Q r → R r)
    → AllOf P rows
    → AllOf Q rows
    → AllOf R rows
AllOf-both P Q R [] f h k = tt
AllOf-both P Q R (r ∷ rows) f h k = (f r h.0 k.0, AllOf-both P Q R rows f h.1 k.1)

pub sorted-IsStrict :
    (rows : List AuditRow) → IsSorted newest_first rows → IsDistinct rows → IsStrict rows
sorted-IsStrict [] s d = tt
sorted-IsStrict (r ∷ rows) s d = (
  AllOf-both (λ t. newest_first r t ≡ true) (λ (t : AuditRow). r.ts ≢ t.ts)
      (λ (t : AuditRow). t.ts < r.ts) rows (λ t le ne. ground arith) s.0 d.0,
  sorted-IsStrict rows s.1 d.1,
)

pub AllOf-middle :
    (P : AuditRow → Type 0) (before : List AuditRow) (x : AuditRow) (rest : List AuditRow)
    → AllOf P (before ++ x ∷ rest)
    → P x
AllOf-middle P [] x rest h = h.0
AllOf-middle P (r ∷ before) x rest h = AllOf-middle P before x rest h.1

-- What stands before the time of a row is what comes after it.
pub select-after :
    (before : List AuditRow) (x : AuditRow) (rest : List AuditRow)
    → IsStrict (before ++ x ∷ rest)
    → select (λ (r : AuditRow). ltb r.ts x.ts) (before ++ x ∷ rest) ≡ rest
select-after [] x rest s =
    let self : ltb x.ts x.ts ≡ false = ground arith in
    rw self (
      select_all _ rest (
        AllOf-map (λ (r : AuditRow). r.ts < x.ts) (λ (r : AuditRow). ltb r.ts x.ts ≡ true) rest
          (λ r h. lt→ltb r.ts x.ts h) s.0))
select-after (p ∷ before) x rest s =
    let later : x.ts < p.ts = AllOf-middle (λ (r : AuditRow). r.ts < p.ts) before x rest s.0 in
    let dropped : ltb p.ts x.ts ≡ false = ground arith in
    rw dropped (select-after before x rest s.1)

-- A full page ends with a row.
pub page_end :
    (n : ℕ) (rows : List AuditRow)
    → suc n ≤ length (take (suc n) rows)
    → (front : List AuditRow) × (x : AuditRow) × (take (suc n) rows ≡ front ++ x ∷ [])
page_end n [] h = absurd (omega arith)
page_end zero (r ∷ rows) h = ([], r, refl)
page_end (suc n) (r ∷ rows) h =
    let (front, x, e) = page_end n rows (omega arith) in (r ∷ front, x, ap (◌∷◌ r) e)

pub last_ts-append : (front : List AuditRow) (x : AuditRow) → last_ts (front ++ x ∷ []) ≡ some x.ts
last_ts-append [] x = refl
last_ts-append (r ∷ []) x = refl
last_ts-append (r ∷ s ∷ front) x = last_ts-append (s ∷ front) x

pub take_all : (n : ℕ) (rows : List AuditRow) → length (take n rows) < n → take n rows ≡ rows
take_all zero rows h = absurd (omega arith)
take_all (suc n) [] h = refl
take_all (suc n) (r ∷ rows) h = ap (◌∷◌ r) (take_all n rows (omega arith))

pub select-append :
    (test : AuditRow → Bool) (xs ys : List AuditRow)
    → select test (xs ++ ys) ≡ select test xs ++ select test ys
select-append test [] ys = refl
select-append test (x ∷ xs) ys = elim (Bool-cases (test x)) [
  | inl e ↦ rw e (ap (◌∷◌ x) (select-append test xs ys))
  | inr e ↦ rw e (select-append test xs ys)
]

pub keep_all : (rows : List AuditRow) → select (λ r. true) rows ≡ rows
keep_all [] = refl
keep_all (r ∷ rows) = ap (◌∷◌ r) (keep_all rows)

pub split_at :
    (whole seen rest front page later : List AuditRow) (x : AuditRow)
    → whole ≡ seen ++ rest
    → page ++ later ≡ rest
    → page ≡ front ++ x ∷ []
    → whole ≡ (seen ++ front) ++ x ∷ later
split_at whole seen rest front page later x e h k =
    e
    ∙ ap (λ l. seen ++ l) (sym h ∙ ap (λ l. l ++ later) k ∙ append_assoc front (x ∷ []) later)
    ∙ sym (append_assoc seen front (x ∷ later))
