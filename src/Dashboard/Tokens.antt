-- ===== src/Dashboard/Tokens.antt =====
-- Personal access tokens: dashboard/pat.py and the table `personal_access_tokens` of
-- dashboard/store.py. The random source and SHA-256 are parameters; a time is in whole microseconds.
mod Tests
pub mod Routes
pub mod Calls
use Prim.Native.Nat.{min, max}
use agent_bakery.Prelude.{
  ℕ, zero, suc, ◌+◌, ◌*◌, Bool, true, false, not, ◌&&◌, ◌||◌, Option, none, some, String, List, [],
  ◌∷◌, ◌++◌, map, take, drop, leb, ltb, ◌==◌, str_eq, if◌then◌else◌,
}
use agent_bakery.Prelude.Int.{ℤ, pos, negsuc}
use agent_bakery.Prelude.Chars.{Chars, strip, is_space, same_text, after_prefix}
use agent_bakery.Prelude.Text.{show}
use agent_bakery.Prelude.Rows.{select, sort_by}
use agent_bakery.Auth.Tokens.{Principal, is_admin}
use agent_bakery.Auth.Webhook.{compare_digest}
use agent_bakery.Audit.{AuditLog, append}
use agent_bakery.Dashboard.Store.{day_us}

-- "ab_"
abbrev pub pat_prefix : Chars
pat_prefix = b'a' ∷ b'b' ∷ b'_' ∷ []

abbrev pub prefix_len : ℕ
prefix_len = 8

-- `random` is what `secrets.token_urlsafe(32)` returns.
abbrev pub new_pat_secret : Chars → Chars
new_pat_secret random = pat_prefix ++ random

unfoldable pub split_prefix : Chars → Chars
unfolding after_prefix
split_prefix secret =
    pat_prefix
    ++ take prefix_len (elim (after_prefix pat_prefix secret) [ some body ↦ body | none ↦ secret ])

-- The secret, its prefix and its hash. `hash` is `hash_pat`: the hex digest of SHA-256.
abbrev pub mint_pat : (Chars → Chars) → Chars → Chars × Chars × Chars
mint_pat hash random =
    let secret = new_pat_secret random in (secret, split_prefix secret, hash secret)

-- `none` is the TypeError of `hmac.compare_digest`.
unfoldable pub verify_pat : (Chars → Chars) → Chars → Chars → Option Bool
unfolding compare_digest
verify_pat hash secret stored_hash = compare_digest (hash secret) stored_hash

pub record Pat : Type 0 where
  pub id : ℕ
  pub tenant_id : String
  pub prefix : Chars
  pub token_hash : Chars
  pub name : Chars
  pub scope : Chars
  pub role : String
  pub created_by : String
  pub created_at : ℕ
  pub expires_at : ℕ
  pub last_used_at : Option ℕ
  pub revoked_at : Option ℕ

-- The rows, and the next value of the sequence of the ids.
pub record PatTable : Type 0 where
  pub rows : List Pat
  pub next_id : ℕ

abbrev pub is_taken : Chars → List Pat → Bool
is_taken prefix [] = false
is_taken prefix (r ∷ rows) = same_text r.prefix prefix || is_taken prefix rows

-- The columns that the caller of `create_pat` gives.
pub record NewPat : Type 0 where
  pub tenant_id : String
  pub prefix : Chars
  pub token_hash : Chars
  pub name : Chars
  pub scope : Chars
  pub role : String
  pub created_by : String
  pub expires_at : ℕ

abbrev pub pat_row : ℕ → ℕ → NewPat → Pat
pat_row id now new = record {
  id = id;
  tenant_id = new.tenant_id;
  prefix = new.prefix;
  token_hash = new.token_hash;
  name = new.name;
  scope = new.scope;
  role = new.role;
  created_by = new.created_by;
  created_at = now;
  expires_at = new.expires_at;
  last_used_at = none;
  revoked_at = none;
}

-- The id, or `none` for a UniqueViolation; the sequence advances either way.
unfoldable pub create_pat : ℕ → NewPat → PatTable → Option ℕ × PatTable
create_pat now new t =
    if is_taken new.prefix t.rows then (none, record t { next_id = suc t.next_id }) else (
      some t.next_id,
      record { rows = t.rows ++ pat_row t.next_id now new ∷ []; next_id = suc t.next_id },
    )

-- What the list shows of a token: neither its hash nor its secret.
pub record PatView : Type 0 where
  pub id : ℕ
  pub prefix : Chars
  pub name : Chars
  pub scope : Chars
  pub role : String
  pub created_by : String
  pub created_at : ℕ
  pub expires_at : ℕ
  pub last_used_at : Option ℕ
  pub revoked_at : Option ℕ

abbrev pub view_of : Pat → PatView
view_of r = record {
  id = r.id;
  prefix = r.prefix;
  name = r.name;
  scope = r.scope;
  role = r.role;
  created_by = r.created_by;
  created_at = r.created_at;
  expires_at = r.expires_at;
  last_used_at = r.last_used_at;
  revoked_at = r.revoked_at;
}

abbrev pub newest_first : Pat → Pat → Bool
newest_first r s = leb s.created_at r.created_at

unfoldable pub list_pats : String → PatTable → List PatView
unfolding sort_by
list_pats tenant t =
    map view_of (sort_by newest_first (select (λ (r : Pat). str_eq r.tenant_id tenant) t.rows))

abbrev pub is_unset : Option ℕ → Bool
is_unset none = true
is_unset (some t) = false

abbrev pub is_revocable : String → ℕ → Pat → Bool
is_revocable tenant id r = str_eq r.tenant_id tenant && r.id == id && is_unset r.revoked_at

abbrev pub revoke_rows : ℕ → String → ℕ → List Pat → List Pat
revoke_rows now tenant id [] = []
revoke_rows now tenant id (r ∷ rows) =
    (if is_revocable tenant id r then (record r { revoked_at = some now }) else r)
    ∷ revoke_rows now tenant id rows

abbrev pub any_revocable : String → ℕ → List Pat → Bool
any_revocable tenant id [] = false
any_revocable tenant id (r ∷ rows) = is_revocable tenant id r || any_revocable tenant id rows

unfoldable pub revoke_pat : ℕ → String → ℕ → PatTable → Bool × PatTable
revoke_pat now tenant id t =
    (any_revocable tenant id t.rows, record t { rows = revoke_rows now tenant id t.rows })
