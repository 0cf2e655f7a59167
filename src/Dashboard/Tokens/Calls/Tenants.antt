-- ===== src/Dashboard/Tokens/Calls/Tenants.antt =====
-- What a tenant sees of its tokens while others call the routes of dashboard/pat_routes.py.
use agent_bakery.Prelude.{
  ℕ, Bool, false, ◌≡◌, refl, Option, none, some, String, List, [], ◌∷◌, ◌++◌, inl, inr, Bool-cases,
  str_eq, eq_iff, if◌then◌else◌, arith, ap, ◌∙◌, map,
}
use agent_bakery.Prelude.Chars.{Chars}
use agent_bakery.Prelude.Rows.{AllOf, select, sort_by}
use agent_bakery.Dashboard.Tokens.{Pat, is_revocable, revoke_rows, view_of, newest_first, list_pats}
use agent_bakery.Dashboard.Tokens.Routes.{Db}
use agent_bakery.Dashboard.Tokens.Calls.{
  Call, caller, after, Moves, stays, adds, revokes, LeadsTo, after-LeadsTo,
}

abbrev pub is_of : String → Pat → Bool
is_of tenant r = str_eq r.tenant_id tenant

-- The tenant has the same rows.
abbrev SameFor : String → List Pat → List Pat → Type 0
SameFor tenant xs ys = select (is_of tenant) ys ≡ select (is_of tenant) xs

-- Callers of other tenants.
abbrev pub IsOther : String → Call → Type 0
IsOther tenant c = str_eq (caller c).tenant tenant ≡ false

append-SameFor :
    (tenant : String) (rows : List Pat) (row : Pat)
    → is_of tenant row ≡ false
    → select (is_of tenant) (rows ++ row ∷ []) ≡ select (is_of tenant) rows
append-SameFor tenant [] row h = rw h
append-SameFor tenant (r ∷ rows) row h = elim (Bool-cases (is_of tenant r)) [
  | inl own ↦ rw own (ap (◌∷◌ r) (append-SameFor tenant rows row h))
  | inr other ↦ rw other (append-SameFor tenant rows row h)
]

revoke-SameFor :
    (tenant owner : String) (now id : ℕ) (rows : List Pat)
    → str_eq owner tenant ≡ false
    → select (is_of tenant) (revoke_rows now owner id rows) ≡ select (is_of tenant) rows
revoke-SameFor tenant owner now id [] h = refl
revoke-SameFor tenant owner now id (r ∷ rows) h = elim (Bool-cases (str_eq r.tenant_id owner)) [
  | inl theirs ↦
      let other : str_eq r.tenant_id tenant ≡ false =
        ground (arith, eq_iff r.tenant_id owner, eq_iff r.tenant_id tenant, eq_iff owner tenant) in
      elim (Bool-cases (is_revocable owner id r)) [
        | inl hit ↦ rw (hit, other) (revoke-SameFor tenant owner now id rows h)
        | inr miss ↦ rw (miss, other) (revoke-SameFor tenant owner now id rows h)
      ]
  | inr apart ↦
      rw apart
        (ap (λ l. if is_of tenant r then r ∷ l else l) (revoke-SameFor tenant owner now id rows h))
]

call-SameFor :
    (tenant : String) (c : Call) (xs ys : List Pat)
    → IsOther tenant c
    → Moves (caller c) xs ys
    → SameFor tenant xs ys
call-SameFor tenant c xs ys h (stays e) = ap (select (is_of tenant)) e
call-SameFor tenant c xs ys h (adds row owner free e) =
    ap (select (is_of tenant)) e ∙ append-SameFor tenant xs row (rw owner h)
call-SameFor tenant c xs ys h (revokes now id e) =
    ap (select (is_of tenant)) e ∙ revoke-SameFor tenant (caller c).tenant now id xs h

-- The tenant's list is the one of a database.
abbrev pub Lists : String → Db → Option Db → Type 0
Lists tenant db none = ⊥
Lists tenant db (some db') = list_pats tenant db'.pats ≡ list_pats tenant db.pats

SameFor-Lists :
    (tenant : String) (db : Db) (pool : Option Db)
    → LeadsTo (SameFor tenant) db.pats.rows pool
    → Lists tenant db pool
unfolding list_pats
SameFor-Lists tenant db none h = h
SameFor-Lists tenant db (some db') h = ap (λ rows. map view_of (sort_by newest_first rows)) h

-- Whatever callers of other tenants mint or revoke, in any order, the database stays there and a tenant's
-- list of tokens stays as it was.
pub others_leave_list :
    (hash : Chars → Chars) (tenant : String) (calls : List Call) (db : Db)
    → AllOf (IsOther tenant) calls
    → Lists tenant db (after hash calls (some db))
others_leave_list hash tenant calls db others =
    SameFor-Lists tenant db (after hash calls (some db)) (
      after-LeadsTo hash (IsOther tenant) (SameFor tenant) (λ rows. refl) (λ xs ys zs h k. k ∙ h)
        (call-SameFor tenant) calls others db)
