-- ===== src/Dashboard/Tokens/Routes/Minting.antt =====
-- What a minted token is, and when one is minted: the route `mint_token` of dashboard/pat_routes.py.
use mathlib.Core.Path.{subst}
use agent_bakery.Prelude.{
  ℕ, zero, suc, ◌+◌, ◌*◌, ◌≤◌, ◌<◌, ◌≡◌, ◌≢◌, refl, ap, sym, ◌∙◌, Bool, true, false, Option, none,
  some, String, List, [], ◌∷◌, ◌++◌, Bool-cases, Option-cases, inl, inr, arith, leb,
}
use agent_bakery.Prelude.Int.{ℤ, pos, negsuc}
use agent_bakery.Prelude.Chars.{Chars, strip, is_space}
use agent_bakery.Auth.Tokens.{Principal, is_admin}
use agent_bakery.Dashboard.Store.{day_us}
use agent_bakery.Dashboard.Tokens.{
  new_pat_secret, split_prefix, Pat, PatTable, NewPat, is_taken, pat_row, create_pat,
}
use agent_bakery.Dashboard.Tokens.Routes.{
  rank_of, rank, or_scope, clamp_role, clamp_days, page, Reveal, Db, MintForm, is_blank, mint_loop,
  revealed, new_pat, attempts, mint_answer, mint_checked, mint_token,
}

-- A role is never above the minter's.
clamp_role-le :
    (requested minter : String)
    → rank (rank_of (clamp_role requested minter)) ≤ rank (rank_of minter)
unfolding clamp_role
clamp_role-le requested minter =
    elim (Bool-cases (leb (rank (rank_of requested)) (rank (rank_of minter)))) [
      | inl within ↦ elim (Option-cases (rank_of requested)) [
        | inl unknown ↦ rw (within, unknown) (unfold rank_of in omega arith)
        | inr (r, known) ↦ rw (within, known) (ground arith)
      ]
      | inr above ↦ rw above (omega arith)
    ]

clamp_days_bounds : (d : ℤ) → (1 ≤ clamp_days d) × (clamp_days d ≤ 365)
unfolding clamp_days
clamp_days_bounds (pos n) = ground arith
clamp_days_bounds (negsuc n) = omega arith

module _ (hash : Chars → Chars) (random : ℕ → Chars) (now : ℕ) (new : Chars → Chars → NewPat) where
  -- The k-th secret, and what is written of it.
  abbrev pub secret_of : ℕ → Chars
  secret_of k = new_pat_secret (random k)

  abbrev pub new_of : ℕ → NewPat
  new_of k = new (split_prefix (secret_of k)) (hash (secret_of k))

  -- What the attempts leave: a new row at the end with a prefix that was free, or the rows as they were.
  abbrev pub Minted : List Pat → Option Chars × PatTable → Type 0
  Minted rows (none, t) = t.rows ≡ rows
  Minted rows (some secret, t) =
      (k id : ℕ) × (secret ≡ secret_of k)
      × (is_taken (new_of k).prefix rows ≡ false)
      × (t.rows ≡ rows ++ pat_row id now (new_of k) ∷ [])

  mint_loop-taken :
      (left made : ℕ) (t : PatTable)
      → is_taken (new_of made).prefix t.rows ≡ true
      → mint_loop hash random now (suc left) made new t
        ≡ mint_loop hash random now left (suc made) new (record t { next_id = suc t.next_id })
  unfolding mint_loop create_pat
  mint_loop-taken left made t taken = ground arith

  mint_loop-free :
      (left made : ℕ) (t : PatTable)
      → is_taken (new_of made).prefix t.rows ≡ false
      → mint_loop hash random now (suc left) made new t ≡ (
        some (secret_of made),
        record {
          rows = t.rows ++ pat_row t.next_id now (new_of made) ∷ [];
          next_id = suc t.next_id;
        },
      )
  unfolding mint_loop create_pat
  mint_loop-free left made t free = ground arith

  pub mint_loop-Minted :
      (left made : ℕ) (t : PatTable) → Minted t.rows (mint_loop hash random now left made new t)
  unfolding mint_loop
  mint_loop-Minted zero made t = refl
  mint_loop-Minted (suc left) made t = elim (Bool-cases (is_taken (new_of made).prefix t.rows)) [
    | inl taken ↦
        subst (Minted t.rows) (sym (mint_loop-taken left made t taken))
          (mint_loop-Minted left (suc made) (record t { next_id = suc t.next_id }))
    | inr free ↦
        subst (Minted t.rows) (sym (mint_loop-free left made t free))
          (made, t.next_id, refl, free, refl)
  ]

  -- With a free prefix among the next attempts, the loop returns a secret.
  mint_loop-some :
      (left made : ℕ) (t : PatTable) (k : ℕ)
      → made ≤ k
      → k < made + left
      → is_taken (new_of k).prefix t.rows ≡ false
      → (secret : Chars) × ((mint_loop hash random now left made new t).0 ≡ some secret)
  mint_loop-some zero made t k h l free = absurd (omega arith)
  mint_loop-some (suc left) made t k h l free =
      elim (Bool-cases (is_taken (new_of made).prefix t.rows)) [
        | inl taken ↦
            let apart : k ≢ made = λ e. cc in
            let (secret, e) =
              mint_loop-some left (suc made) (record t { next_id = suc t.next_id }) k (omega arith)
                (omega arith) free in
            (secret, ap (λ m. m.0) (mint_loop-taken left made t taken) ∙ e)
        | inr first ↦ (secret_of made, ap (λ m. m.0) (mint_loop-free left made t first))
      ]

-- The row that a mint adds, and the page that reveals it.
pub record IsMinted (hash : Chars → Chars) (p : Principal) (now : ℕ) (rows : List Pat) (r : Reveal)
    (row : Pat) : Type 0 where
  pub free : is_taken row.prefix rows ≡ false
  pub prefixed : row.prefix ≡ split_prefix r.secret
  pub hashed : row.token_hash ≡ hash r.secret
  pub of_tenant : row.tenant_id ≡ p.tenant
  pub same_role : row.role ≡ r.role
  pub within_role : rank (rank_of row.role) ≤ rank (rank_of p.role)
  pub same_expiry : row.expires_at ≡ r.expires_at
  pub one_day : now + day_us ≤ row.expires_at
  pub one_year : row.expires_at ≤ now + 365 * day_us
  pub unrevoked : row.revoked_at ≡ none

module _ (audit_fails : Bool) (hash : Chars → Chars) (random : ℕ → Chars) (p : Principal)
    (form : MintForm) (now later : ℕ) where
  answer-IsMinted :
      (scope : Chars) (db : Db) (m : Option Chars × PatTable) (r : Reveal)
      → Minted hash random now (new_pat p form now) db.pats.rows m
      → (mint_answer audit_fails p scope later (revealed p form now) db m).0 ≡ page r
      → (row : Pat) × ((mint_answer audit_fails p scope later
            (revealed p form now)
            db
            m).1.pats.rows
          ≡ db.pats.rows ++ row ∷ [])
        × IsMinted hash p now db.pats.rows r row
  unfolding mint_answer revealed new_pat
  answer-IsMinted scope db (none, t) r h e = absurd (ground arith)
  answer-IsMinted scope db (some secret, t) r (k, id, s, free, rows) e =
      let shown : revealed p form now secret ≡ r = cc in
      let days = clamp_days_bounds form.expires_days in
      (
        pat_row id now (new_pat p form now (split_prefix secret) (hash secret)),
        rw s rows,
        rw (← shown) (record {
          free = rw s free;
          prefixed = refl;
          hashed = refl;
          of_tenant = refl;
          same_role = refl;
          within_role = clamp_role-le form.role p.role;
          same_expiry = refl;
          one_day = omega (arith, days);
          one_year = omega (arith, days);
          unrevoked = refl;
        }),
      )

  checked-IsMinted :
      (db : Db) (r : Reveal)
      → (mint_checked audit_fails hash random p form now later db).0 ≡ page r
      → (row : Pat) × ((mint_checked audit_fails hash random p form now later db).1.pats.rows
          ≡ db.pats.rows ++ row ∷ [])
        × IsMinted hash p now db.pats.rows r row
  unfolding mint_checked
  checked-IsMinted db r =
      answer-IsMinted (strip is_space (or_scope form.scope)) db
        (mint_loop hash random now attempts 0 (new_pat p form now) db.pats) r
        (mint_loop-Minted hash random now (new_pat p form now) attempts 0 db.pats)

  -- A page comes from the part that the guards let through.
  through_guards :
      (db db' : Db) (r : Reveal)
      → mint_token audit_fails hash random p form now later (some db) ≡ (page r, some db')
      → (is_admin p ≡ true)
        × ((mint_checked audit_fails hash random p form now later db).0 ≡ page r)
        × ((mint_checked audit_fails hash random p form now later db).1 ≡ db')
  unfolding mint_token
  through_guards db db' r e = ground arith

  answer-page :
      (scope : Chars) (db : Db) (m : Option Chars × PatTable) (secret : Chars)
      → m.0 ≡ some secret
      → (mint_answer audit_fails p scope later (revealed p form now) db m).0
        ≡ page (revealed p form now secret)
  unfolding mint_answer
  answer-page scope db (none, t) secret e = absurd (ground arith)
  answer-page scope db (some s, t) secret e = ground arith

  -- Where minting a token reveals a secret, the minter is an admin and one row is added, the others stay:
  -- a row of the minter's tenant, whose prefix no row had, with the prefix and the hash of the secret
  -- that is revealed, a role not above the minter's, an expiry between a day and 365 days off, and not
  -- revoked.
  pub mint_token-page :
      (db db' : Db) (r : Reveal)
      → mint_token audit_fails hash random p form now later (some db) ≡ (page r, some db')
      → (is_admin p ≡ true)
        × (row : Pat) × (db'.pats.rows ≡ db.pats.rows ++ row ∷ [])
        × IsMinted hash p now db.pats.rows r row
  mint_token-page db db' r e =
      let (admin, revealing, left) = through_guards db db' r e in
      let (row, rows, minted) = checked-IsMinted db r revealing in
      (admin, row, rw left at rows, minted)

  -- An admin who gives a name that is not blank, where there is a database and one of the first five
  -- drawn secrets has a prefix that no row has, is shown a secret.
  pub mint_token_succeeds :
      (db : Db) (k : ℕ)
      → is_admin p ≡ true
      → is_blank (strip is_space form.name) ≡ false
      → k < attempts
      → is_taken (split_prefix (new_pat_secret (random k))) db.pats.rows ≡ false
      → (r : Reveal) × ((mint_token audit_fails hash random p form now later (some db)).0 ≡ page r)
  unfolding mint_token mint_checked
  mint_token_succeeds db k admin named within free =
      let (secret, e) =
        mint_loop-some hash random now (new_pat p form now) attempts 0 db.pats k (omega arith)
          within (unfold new_pat in free) in
      (
        revealed p form now secret,
        rw (admin, named) (answer-page (strip is_space (or_scope form.scope)) db _ secret e),
      )
