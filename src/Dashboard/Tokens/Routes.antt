-- ===== src/Dashboard/Tokens/Routes.antt =====
-- The routes of dashboard/pat_routes.py, which answer with a page or with the status of an
-- HTTPException. The pool is `none` where the database was unreachable at boot.
pub mod Minting
use Prim.Native.Nat.{min, max}
use agent_bakery.Prelude.{
  ℕ, zero, suc, ◌+◌, ◌*◌, Bool, true, false, not, ◌&&◌, ◌||◌, Option, none, some, String, List, [],
  ◌∷◌, ◌++◌, map, take, drop, leb, ltb, ◌==◌, str_eq, if◌then◌else◌,
}
use agent_bakery.Prelude.Int.{ℤ, pos, negsuc}
use agent_bakery.Prelude.Chars.{Chars, strip, is_space, same_text, after_prefix}
use agent_bakery.Prelude.Text.{show}
use agent_bakery.Prelude.Rows.{select, sort_by}
use agent_bakery.Auth.Tokens.{Principal, is_admin}
use agent_bakery.Auth.Webhook.{compare_digest}
use agent_bakery.Audit.{AuditLog, append}
use agent_bakery.Dashboard.Store.{day_us}
use agent_bakery.Prelude.Text.{codes}
use agent_bakery.Dashboard.Tokens.{
  mint_pat, PatTable, NewPat, split_prefix, create_pat, revoke_pat, PatView, list_pats,
}

-- `_ROLE_RANK`; `none` where it has no such role.
unfoldable pub rank_of : String → Option ℕ
rank_of role =
    if str_eq role "viewer"
    then some 0
    else if str_eq role "manager"
    then some 1
    else if str_eq role "admin"
    then some 2
    else none

-- `_ROLE_RANK.get(role, 0)`
abbrev pub rank : Option ℕ → ℕ
rank none = 0
rank (some r) = r

abbrev pub or_default : Option ℕ → String → String
or_default none role = "viewer"
or_default (some r) role = role

unfoldable pub clamp_role : String → String → String
clamp_role requested minter_role =
    if leb (rank (rank_of requested)) (rank (rank_of minter_role))
    then or_default (rank_of requested) requested
    else minter_role

-- `max(1, min(int(expires_days or 30), 365))`
unfoldable pub clamp_days : ℤ → ℕ
clamp_days (pos n) = max 1 (min (if n == 0 then 30 else n) 365)
clamp_days (negsuc n) = 1

-- What a route answers.
pub data Reply (A : Type 0) : Type 0 where
  page : A → Reply A
  http_error : ℕ → Reply A

pub record Reveal : Type 0 where
  pub secret : Chars
  pub name : Chars
  pub role : String
  pub expires_at : ℕ

-- The tables that the routes write.
pub record Db : Type 0 where
  pub pats : PatTable
  pub log : AuditLog

pub record MintForm : Type 0 where
  pub name : Chars
  pub scope : Chars
  pub role : String
  pub expires_days : ℤ

-- "read:agents"
abbrev pub default_scope : Chars
default_scope = b'r' ∷ b'e' ∷ b'a' ∷ b'd' ∷ b':' ∷ b'a' ∷ b'g' ∷ b'e' ∷ b'n' ∷ b't' ∷ b's' ∷ []

abbrev pub or_scope : Chars → Chars
or_scope [] = default_scope
or_scope (c ∷ s) = c ∷ s

abbrev pub is_blank : Chars → Bool
is_blank [] = true
is_blank (c ∷ s) = false

-- The attempts to create a token, by those that are left and those that were made: the secret, or `none`
-- where every prefix is taken. `random` is the stream of what `secrets.token_urlsafe(32)` returns.
unfoldable pub mint_loop :
    (Chars → Chars)
    → (ℕ → Chars)
    → ℕ
    → ℕ
    → ℕ
    → (Chars → Chars → NewPat)
    → PatTable
    → Option Chars × PatTable
unfolding create_pat split_prefix
mint_loop hash random now zero made new t = (none, t)
mint_loop hash random now (suc left) made new t =
    let (secret, prefix, token_hash) = mint_pat hash (random made) in
    let (id, t') = create_pat now (new prefix token_hash) t in
    elim id [ some i ↦ (some secret, t') | none ↦ mint_loop hash random now left (suc made) new t' ]

-- What the page reveals, given the secret.
unfoldable pub revealed : Principal → MintForm → ℕ → Chars → Reveal
unfolding clamp_role clamp_days strip
revealed p form now secret = record {
  secret = secret;
  name = strip is_space form.name;
  role = clamp_role form.role p.role;
  expires_at = now + clamp_days form.expires_days * day_us;
}

-- The row, given the prefix and the hash.
unfoldable pub new_pat : Principal → MintForm → ℕ → Chars → Chars → NewPat
unfolding clamp_role clamp_days strip
new_pat p form now prefix token_hash = record {
  tenant_id = p.tenant;
  prefix = prefix;
  token_hash = token_hash;
  name = strip is_space form.name;
  scope = strip is_space (or_scope form.scope);
  role = clamp_role form.role p.role;
  created_by = p.sub;
  expires_at = now + clamp_days form.expires_days * day_us;
}

abbrev pub attempts : ℕ
attempts = 5

module _ (audit_fails : Bool) where
  abbrev pub log_token :
      Principal → String → Chars → List (String × Chars) → ℕ → AuditLog → AuditLog
  log_token p action resource metadata when log =
      append audit_fails p.tenant
        (record {
          actor = codes p.sub;
          action = codes action;
          resource = some resource;
          metadata = metadata;
        })
        when log

  -- The answer to the attempts: the page that reveals the secret, or a 500.
  unfoldable pub mint_answer :
      Principal → Chars → ℕ → (Chars → Reveal) → Db → Option Chars × PatTable → Reply Reveal × Db
  unfolding append
  mint_answer p scope later reveal db (none, pats) = (http_error 500, record db { pats = pats })
  mint_answer p scope later reveal db (some secret, pats) =
      let r = reveal secret in
      (
        page r,
        record {
          pats = pats;
          log =
              log_token p "token-mint" r.name (("scope", scope) ∷ ("role", codes r.role) ∷ []) later
                db.log;
        },
      )

  module _ (hash : Chars → Chars) (random : ℕ → Chars) where
    -- What follows the guards of `mint_token`: `now` is the time before the attempts, `later` after.
    unfoldable pub mint_checked : Principal → MintForm → ℕ → ℕ → Db → Reply Reveal × Db
    unfolding mint_loop
    mint_checked p form now later db =
        let reveal = revealed p form now in
        mint_answer p (strip is_space (or_scope form.scope)) later reveal db
          (mint_loop hash random now attempts 0 (new_pat p form now) db.pats)

    unfoldable pub mint_token : Principal → MintForm → ℕ → ℕ → Option Db → Reply Reveal × Option Db
    mint_token p form now later none =
        (if not (is_admin p) then http_error 403 else http_error 503, none)
    mint_token p form now later (some db) =
        if not (is_admin p)
        then (http_error 403, some db)
        else if is_blank (strip is_space form.name)
        then (http_error 400, some db)
        else (let (reply, db') = mint_checked p form now later db in (reply, some db'))

  unfoldable pub revoke_token : Principal → ℕ → ℕ → ℕ → Option Db → Reply (List PatView) × Option Db
  unfolding is_admin revoke_pat list_pats append show
  revoke_token p id now later none =
      (if not (is_admin p) then http_error 403 else http_error 503, none)
  revoke_token p id now later (some db) =
      if not (is_admin p)
      then (http_error 403, some db)
      else (let (revoked, pats) = revoke_pat now p.tenant id db.pats in
          let log =
            if revoked
            then log_token p "token-revoke" (codes (show id)) [] later db.log
            else db.log in
          (page (list_pats p.tenant pats), some (record { pats = pats; log = log })))

-- The list, or `none` for the page that says that the database is unavailable.
unfoldable pub partial_tokens : Principal → Option Db → Reply (Option (List PatView))
unfolding is_admin list_pats
partial_tokens p pool =
    if not (is_admin p)
    then http_error 403
    else page (elim pool [ none ↦ none | some db ↦ some (list_pats p.tenant db.pats) ])
