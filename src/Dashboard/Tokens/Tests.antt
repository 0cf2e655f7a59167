-- ===== src/Dashboard/Tokens/Tests.antt =====
-- Runs of the models of dashboard/pat.py and dashboard/pat_routes.py, and their theorems at concrete
-- inputs.
use agent_bakery.Prelude.{
  ℕ, zero, suc, ◌+◌, ◌*◌, ◌++◌, ◌≡◌, refl, true, false, some, none, String, List, [], ◌∷◌, arith,
}
use agent_bakery.Prelude.Int.{pos}
use agent_bakery.Prelude.Chars.{Chars, strip}
use agent_bakery.Prelude.Text.{codes}
use agent_bakery.Auth.Tokens.{Principal, is_admin}
use agent_bakery.Dashboard.Store.{day_us}
use agent_bakery.Dashboard.Tokens.{Pat, NewPat, pat_row, split_prefix}
use agent_bakery.Dashboard.Tokens.Routes.{
  page, Reveal, Db, MintForm, mint_token, mint_checked, mint_answer, new_pat, revealed, rank_of,
}
use agent_bakery.Dashboard.Tokens.Routes.Minting.{IsMinted, mint_token-page, mint_token_succeeds}
use agent_bakery.Dashboard.Tokens.Calls.{Call, mint, revoke, after}
use agent_bakery.Dashboard.Tokens.Calls.Tenants.{Lists, others_leave_list}
use agent_bakery.Dashboard.Tokens.Calls.Lasting.{LastsIn, tokens_last}

abbrev admin_of : String → Principal
admin_of tenant = record { sub = "ann"; tenant = tenant; role = "admin"; name = none }

-- A stand-in for SHA-256, and one for the random source.
abbrev hash : Chars → Chars
hash s = b'#' ∷ s

abbrev random : ℕ → Chars
random zero = codes "aaaaaaaaaa"
random (suc n) = codes "bbbbbbbbbb"

abbrev old : Pat
old = pat_row 1 5 (record {
  tenant_id = "ops";
  prefix = codes "ab_aaaaaaaa";
  token_hash = codes "#ab_aaaaaaaaaa";
  name = codes "old";
  scope = codes "read:agents";
  role = "viewer";
  created_by = "bob";
  expires_at = 10;
})

abbrev db : Db
db = record {
  pats = record { rows = old ∷ []; next_id = 2 };
  log = record { rows = []; next_id = 1 };
}

abbrev form : MintForm
form = record { name = codes " ci "; scope = []; role = "manager"; expires_days = pos 0 }

abbrev new_row : NewPat
new_row = record {
  tenant_id = "ops";
  prefix = codes "ab_bbbbbbbb";
  token_hash = codes "#ab_bbbbbbbbbb";
  name = codes "ci";
  scope = codes "read:agents";
  role = "manager";
  created_by = "ann";
  expires_at = 1000 + 30 * day_us;
}

abbrev shown : Reveal
shown = record {
  secret = codes "ab_bbbbbbbbbb";
  name = codes "ci";
  role = "manager";
  expires_at = 1000 + 30 * day_us;
}

abbrev minted : Db
minted = record {
  pats = record { rows = old ∷ pat_row 3 1000 new_row ∷ []; next_id = 4 };
  log = record {
    rows =
        record {
          id = 1;
          tenant_id = "ops";
          ts = 1001;
          actor = codes "ann";
          action = codes "token-mint";
          resource = some (codes "ci");
          metadata = ("scope", codes "read:agents") ∷ ("role", codes "manager") ∷ [];
        }
        ∷ [];
    next_id = 2;
  };
}

mint_token-page_example :
    (is_admin (admin_of "ops") ≡ true)
    × (row : Pat) × (minted.pats.rows ≡ db.pats.rows ++ row ∷ [])
    × IsMinted hash (admin_of "ops") 1000 db.pats.rows shown row
unfolding mint_token is_admin strip mint_checked mint_answer new_pat revealed rank_of
mint_token-page_example =
    mint_token-page false hash random (admin_of "ops") form 1000 1001 db minted shown refl

mint_token_succeeds_example :
    (r : Reveal) × ((mint_token false hash random (admin_of "ops") form 1000 1001 (some db)).0
      ≡ page r)
unfolding is_admin strip split_prefix
mint_token_succeeds_example =
    mint_token_succeeds false hash random (admin_of "ops") form 1000 1001 db 1 refl refl
      (omega arith) refl

abbrev calls : List Call
calls =
    mint (admin_of "qa") form random 1000 1001 false ∷ revoke (admin_of "qa") 1 1002 1003 false ∷ []

others_leave_list_example : Lists "ops" db (after hash calls (some db))
others_leave_list_example = others_leave_list hash "ops" calls db (refl, (refl, tt))

tokens_last_example :
    LastsIn db (after hash (revoke (admin_of "ops") 1 9 9 false ∷ calls) (some db))
tokens_last_example = tokens_last hash (revoke (admin_of "ops") 1 9 9 false ∷ calls) db (refl, tt)
