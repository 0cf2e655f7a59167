-- ===== src/Dashboard/Tokens/Calls.antt =====
-- Any sequence of calls of the routes of dashboard/pat_routes.py, by any callers.
pub mod Tenants
pub mod Lasting
use agent_bakery.Prelude.{
  ℕ, suc, Bool, true, false, not, ◌&&◌, ◌≡◌, refl, Option, none, some, String, List, [], ◌∷◌, ◌++◌,
  ◌⊎◌, inl, inr, Bool-cases, str_eq, if◌then◌else◌, arith, ap, sym, ◌∙◌,
}
use agent_bakery.Prelude.Chars.{Chars, strip, is_space}
use agent_bakery.Prelude.Rows.{AllOf}
use agent_bakery.Auth.Tokens.{Principal, is_admin}
use agent_bakery.Dashboard.Tokens.{
  Pat, PatTable, NewPat, is_taken, pat_row, revoke_rows, revoke_pat, split_prefix, new_pat_secret,
}
use agent_bakery.Dashboard.Tokens.Routes.{
  Reply, Reveal, Db, MintForm, is_blank, or_scope, mint_loop, revealed, new_pat, attempts,
  mint_answer, mint_checked, mint_token, revoke_token,
}
use agent_bakery.Dashboard.Tokens.Routes.Minting.{Minted, mint_loop-Minted}

-- A call of a route, with its caller, the times before and after, what the random source returns, and
-- whether the audit fails.
pub data Call : Type 0 where
  mint : Principal → MintForm → (ℕ → Chars) → ℕ → ℕ → Bool → Call
  revoke : Principal → ℕ → ℕ → ℕ → Bool → Call

abbrev pub caller : Call → Principal
caller (mint p form random now later fails) = p
caller (revoke p id now later fails) = p

module _ (hash : Chars → Chars) where
  unfoldable pub step : Call → Option Db → Option Db
  step (mint p form random now later fails) pool =
      (mint_token fails hash random p form now later pool).1
  step (revoke p id now later fails) pool = (revoke_token fails p id now later pool).1

  unfoldable pub after : List Call → Option Db → Option Db
  unfolding step
  after [] pool = pool
  after (c ∷ calls) pool = after calls (step c pool)

-- What a call makes of the rows: nothing, a row more of the caller's tenant with a free prefix, or a
-- revocation in the caller's tenant.
pub data Moves (p : Principal) (rows rows' : List Pat) : Type 0 where
  stays : rows' ≡ rows → Moves p rows rows'
  adds :
      (row : Pat)
      → row.tenant_id ≡ p.tenant
      → is_taken row.prefix rows ≡ false
      → rows' ≡ rows ++ row ∷ []
      → Moves p rows rows'
  revokes : (now id : ℕ) → rows' ≡ revoke_rows now p.tenant id rows → Moves p rows rows'

-- A pool that is there stays, with rows that moved so.
abbrev pub MovesTo : Principal → List Pat → Option Db → Type 0
MovesTo p rows none = ⊥
MovesTo p rows (some db) = Moves p rows db.pats.rows

module _ (hash : Chars → Chars) where
  answer-Moves :
      (fails : Bool) (random : ℕ → Chars) (p : Principal) (form : MintForm) (now later : ℕ)
      (scope : Chars) (db : Db) (m : Option Chars × PatTable)
      → Minted hash random now (new_pat p form now) db.pats.rows m
      → Moves p db.pats.rows
          (mint_answer fails p scope later (revealed p form now) db m).1.pats.rows
  unfolding mint_answer
  answer-Moves fails random p form now later scope db (none, t) h = stays h
  answer-Moves fails random p form now later scope db (some secret, t) (k, id, s, free, rows) =
      adds
        (pat_row id now (
          new_pat p form now (split_prefix (new_pat_secret (random k)))
            (hash (new_pat_secret (random k)))))
        (unfold new_pat in refl) free rows

  mint-Moves :
      (fails : Bool) (random : ℕ → Chars) (p : Principal) (form : MintForm) (now later : ℕ)
      (db : Db)
      → MovesTo p db.pats.rows (mint_token fails hash random p form now later (some db)).1
  unfolding mint_token mint_checked
  mint-Moves fails random p form now later db = elim (Bool-cases (is_admin p)) [
    | inr stranger ↦ rw (stranger, MovesTo) (stays refl)
    | inl admin ↦ elim (Bool-cases (is_blank (strip is_space form.name))) [
      | inl blank ↦ rw (admin, blank, MovesTo) (stays refl)
      | inr named ↦
          rw (admin, named, MovesTo)
            (answer-Moves fails random p form now later (strip is_space (or_scope form.scope)) db
              (mint_loop hash random now attempts 0 (new_pat p form now) db.pats)
              (mint_loop-Minted hash random now (new_pat p form now) attempts 0 db.pats))
    ]
  ]

  revoke-Moves :
      (fails : Bool) (p : Principal) (id now later : ℕ) (db : Db)
      → MovesTo p db.pats.rows (revoke_token fails p id now later (some db)).1
  unfolding revoke_token
  revoke-Moves fails p id now later db = elim (Bool-cases (is_admin p)) [
    | inr stranger ↦ rw (stranger, MovesTo) (stays refl)
    | inl admin ↦ rw (admin, MovesTo) (revokes now id refl)
  ]

  pub step-Moves : (c : Call) (db : Db) → MovesTo (caller c) db.pats.rows (step hash c (some db))
  unfolding step
  step-Moves (mint p form random now later fails) db = mint-Moves fails random p form now later db
  step-Moves (revoke p id now later fails) db = revoke-Moves fails p id now later db

-- The pool is still there, and its rows are in a relation to earlier ones.
abbrev pub LeadsTo : (List Pat → List Pat → Type 0) → List Pat → Option Db → Type 0
LeadsTo R rows none = ⊥
LeadsTo R rows (some db) = R rows db.pats.rows

LeadsTo-join :
    (R : List Pat → List Pat → Type 0) (xs ys : List Pat) (pool : Option Db)
    → ((zs : List Pat) → R ys zs → R xs zs)
    → LeadsTo R ys pool
    → LeadsTo R xs pool
LeadsTo-join R xs ys none join h = h
LeadsTo-join R xs ys (some db) join h = join db.pats.rows h

module _ (hash : Chars → Chars) (P : Call → Type 0) (R : List Pat → List Pat → Type 0) where
  -- A call, given what follows it.
  one_more :
      (p : Principal) (rows : List Pat) (calls : List Call) (pool : Option Db)
      → MovesTo p rows pool
      → ((ys zs : List Pat) → R rows ys → R ys zs → R rows zs)
      → ((ys : List Pat) → Moves p rows ys → R rows ys)
      → ((db : Db) → LeadsTo R db.pats.rows (after hash calls (some db)))
      → LeadsTo R rows (after hash calls pool)
  one_more p rows calls none m join one rest = absurd m
  one_more p rows calls (some db) m join one rest =
      LeadsTo-join R rows db.pats.rows (after hash calls (some db))
        (λ zs h. join db.pats.rows zs (one db.pats.rows m) h) (rest db)

  -- What each call does to the rows, a sequence of calls does.
  pub after-LeadsTo :
      ((rows : List Pat) → R rows rows)
      → ((xs ys zs : List Pat) → R xs ys → R ys zs → R xs zs)
      → ((c : Call) (xs ys : List Pat) → P c → Moves (caller c) xs ys → R xs ys)
      → (calls : List Call) → AllOf P calls
      → (db : Db) → LeadsTo R db.pats.rows (after hash calls (some db))
  unfolding after
  after-LeadsTo same join one [] all db = same db.pats.rows
  after-LeadsTo same join one (c ∷ calls) all db =
      one_more (caller c) db.pats.rows calls (step hash c (some db)) (step-Moves hash c db)
        (join db.pats.rows) (λ ys m. one c db.pats.rows ys all.0 m)
        (after-LeadsTo same join one calls all.1)
