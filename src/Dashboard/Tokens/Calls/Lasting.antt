-- ===== src/Dashboard/Tokens/Calls/Lasting.antt =====
-- What lasts of a token, whatever the routes of dashboard/pat_routes.py are called for.
use agent_bakery.Prelude.{
  ℕ, true, false, ◌||◌, ◌≡◌, refl, Option, none, some, String, List, [], ◌∷◌, ◌++◌, ◌⊎◌, inl, inr,
  Bool-cases, arith, ap, ◌∙◌,
}
use agent_bakery.Prelude.Chars.{Chars, same_text, same_text_iff}
use agent_bakery.Prelude.Rows.{AllOf}
use agent_bakery.Dashboard.Tokens.{Pat, is_taken, is_revocable, is_unset, revoke_rows}
use agent_bakery.Dashboard.Tokens.Routes.{Db}
use agent_bakery.Dashboard.Tokens.Calls.{
  Call, caller, after, Moves, stays, adds, revokes, LeadsTo, after-LeadsTo,
}

-- A token keeps all but when it was last used and revoked, and a revoked one stays so.
pub record Keeps (r s : Pat) : Type 0 where
  pub same_id : s.id ≡ r.id
  pub same_tenant : s.tenant_id ≡ r.tenant_id
  pub same_prefix : s.prefix ≡ r.prefix
  pub same_hash : s.token_hash ≡ r.token_hash
  pub same_role : s.role ≡ r.role
  pub same_expiry : s.expires_at ≡ r.expires_at
  pub revoked : (is_unset r.revoked_at ≡ true) ⊎ (s.revoked_at ≡ r.revoked_at)

-- Every row is kept, in its place.
abbrev pub KeepsAll : List Pat → List Pat → Type 0
KeepsAll [] ys = Unit
KeepsAll (x ∷ xs) [] = ⊥
KeepsAll (x ∷ xs) (y ∷ ys) = Keeps x y × KeepsAll xs ys

-- No two tokens have one prefix.
abbrev pub IsUnique : List Pat → Type 0
IsUnique [] = Unit
IsUnique (x ∷ xs) = (is_taken x.prefix xs ≡ false) × IsUnique xs

Keeps-self : (r : Pat) → Keeps r r
Keeps-self r = record {
  same_id = refl;
  same_tenant = refl;
  same_prefix = refl;
  same_hash = refl;
  same_role = refl;
  same_expiry = refl;
  revoked = inr refl;
}

Keeps-join : (r s t : Pat) → Keeps r s → Keeps s t → Keeps r t
Keeps-join r s t h k = record {
  same_id = k.same_id ∙ h.same_id;
  same_tenant = k.same_tenant ∙ h.same_tenant;
  same_prefix = k.same_prefix ∙ h.same_prefix;
  same_hash = k.same_hash ∙ h.same_hash;
  same_role = k.same_role ∙ h.same_role;
  same_expiry = k.same_expiry ∙ h.same_expiry;
  revoked = join_revoked r.revoked_at s.revoked_at t.revoked_at h.revoked k.revoked;
}
  where
    join_revoked :
        (a b c : Option ℕ)
        → (is_unset a ≡ true) ⊎ (b ≡ a)
        → (is_unset b ≡ true) ⊎ (c ≡ b)
        → (is_unset a ≡ true) ⊎ (c ≡ a)
    join_revoked a b c (inl h) k = inl h
    join_revoked a b c (inr h) (inl k) = inl (rw (← h) k)
    join_revoked a b c (inr h) (inr k) = inr (k ∙ h)

KeepsAll-self : (rows : List Pat) → KeepsAll rows rows
KeepsAll-self [] = tt
KeepsAll-self (r ∷ rows) = (Keeps-self r, KeepsAll-self rows)

KeepsAll-join : (xs ys zs : List Pat) → KeepsAll xs ys → KeepsAll ys zs → KeepsAll xs zs
KeepsAll-join [] ys zs h k = tt
KeepsAll-join (x ∷ xs) [] zs h k = absurd h
KeepsAll-join (x ∷ xs) (y ∷ ys) [] h k = k
KeepsAll-join (x ∷ xs) (y ∷ ys) (z ∷ zs) h k =
    (Keeps-join x y z h.0 k.0, KeepsAll-join xs ys zs h.1 k.1)

KeepsAll-append : (rows more : List Pat) → KeepsAll rows (rows ++ more)
KeepsAll-append [] more = tt
KeepsAll-append (r ∷ rows) more = (Keeps-self r, KeepsAll-append rows more)

KeepsAll-revoke :
    (owner : String) (now id : ℕ) (rows : List Pat) → KeepsAll rows (revoke_rows now owner id rows)
KeepsAll-revoke owner now id [] = tt
KeepsAll-revoke owner now id (r ∷ rows) =
    let rest = KeepsAll-revoke owner now id rows in
    elim (Bool-cases (is_revocable owner id r)) [
      | inl hit ↦
          let unset : is_unset r.revoked_at ≡ true = ground arith in
          let kept : Keeps r (record r { revoked_at = some now }) = record {
            same_id = refl;
            same_tenant = refl;
            same_prefix = refl;
            same_hash = refl;
            same_role = refl;
            same_expiry = refl;
            revoked = inl unset;
          } in
          rw hit (kept, rest)
      | inr miss ↦ rw miss (Keeps-self r, rest)
    ]

is_taken-append :
    (prefix : Chars) (rows : List Pat) (row : Pat)
    → is_taken prefix rows ≡ false
    → same_text row.prefix prefix ≡ false
    → is_taken prefix (rows ++ row ∷ []) ≡ false
is_taken-append prefix [] row h k = ground arith
is_taken-append prefix (r ∷ rows) row h k = ground (arith, is_taken-append prefix rows row)

append-IsUnique :
    (rows : List Pat) (row : Pat)
    → IsUnique rows
    → is_taken row.prefix rows ≡ false
    → IsUnique (rows ++ row ∷ [])
append-IsUnique [] row u free = (refl, tt)
append-IsUnique (r ∷ rows) row u free = (
  is_taken-append r.prefix rows row u.0
      (ground (arith, same_text_iff row.prefix r.prefix, same_text_iff r.prefix row.prefix)),
  append-IsUnique rows row u.1 (ground arith),
)

revoke-is_taken :
    (prefix : Chars) (owner : String) (now id : ℕ) (rows : List Pat)
    → is_taken prefix (revoke_rows now owner id rows) ≡ is_taken prefix rows
revoke-is_taken prefix owner now id [] = refl
revoke-is_taken prefix owner now id (r ∷ rows) =
    let rest =
      ap (λ b. same_text r.prefix prefix || b) (revoke-is_taken prefix owner now id rows) in
    elim (Bool-cases (is_revocable owner id r)) [ inl hit ↦ rw hit rest | inr miss ↦ rw miss rest ]

revoke-IsUnique :
    (owner : String) (now id : ℕ) (rows : List Pat)
    → IsUnique rows
    → IsUnique (revoke_rows now owner id rows)
revoke-IsUnique owner now id [] u = tt
revoke-IsUnique owner now id (r ∷ rows) u =
    let free = revoke-is_taken r.prefix owner now id rows ∙ u.0 in
    let rest = revoke-IsUnique owner now id rows u.1 in
    elim (Bool-cases (is_revocable owner id r)) [
      | inl hit ↦ rw hit (free, rest)
      | inr miss ↦ rw miss (free, rest)
    ]

-- Rows with distinct prefixes are kept, and still have distinct prefixes.
abbrev Lasts : List Pat → List Pat → Type 0
Lasts xs ys = IsUnique xs → KeepsAll xs ys × IsUnique ys

call-Lasts : (c : Call) (xs ys : List Pat) → Unit {0} → Moves (caller c) xs ys → Lasts xs ys
call-Lasts c xs ys h (stays e) u = rw e (KeepsAll-self xs, u)
call-Lasts c xs ys h (adds row owner free e) u =
    rw e (KeepsAll-append xs (row ∷ []), append-IsUnique xs row u free)
call-Lasts c xs ys h (revokes now id e) u =
    rw e
      (KeepsAll-revoke (caller c).tenant now id xs, revoke-IsUnique (caller c).tenant now id xs u)

-- Every call.
all_calls : (calls : List Call) → AllOf (λ c. Unit {0}) calls
all_calls [] = tt
all_calls (c ∷ calls) = (tt, all_calls calls)

-- The tokens of a database are all in another, which has distinct prefixes.
abbrev pub LastsIn : Db → Option Db → Type 0
LastsIn db none = ⊥
LastsIn db (some db') = KeepsAll db.pats.rows db'.pats.rows × IsUnique db'.pats.rows

Lasts-LastsIn :
    (db : Db) (pool : Option Db)
    → IsUnique db.pats.rows
    → LeadsTo Lasts db.pats.rows pool
    → LastsIn db pool
Lasts-LastsIn db none u h = h
Lasts-LastsIn db (some db') u h = h u

-- From tokens of distinct prefixes, whatever is called by whomever in any order, every token stays, with
-- its id, tenant, prefix, hash, role and expiry, a token that is revoked stays revoked at its time, and
-- the prefixes stay distinct, by which a token is looked up.
pub tokens_last :
    (hash : Chars → Chars) (calls : List Call) (db : Db)
    → IsUnique db.pats.rows
    → LastsIn db (after hash calls (some db))
tokens_last hash calls db u = Lasts-LastsIn db (after hash calls (some db)) u (
    after-LeadsTo hash (λ c. Unit {0}) Lasts (λ rows u. (KeepsAll-self rows, u))
      (λ xs ys zs h k u. (KeepsAll-join xs ys zs (h u).0 (k (h u).1).0, (k (h u).1).1)) call-Lasts
      calls (all_calls calls) db)
