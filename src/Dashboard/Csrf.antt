-- ===== src/Dashboard/Csrf.antt =====
-- The CSRF guard of dashboard/api.py: a signed token in a cookie that a state-changing request echoes.
-- The HMAC, the random source and `urlsplit` are parameters. `hmac.compare_digest` raises a TypeError on
-- texts beyond ASCII, and `urlsplit` a ValueError: a request that makes them raise is `crashed`.
mod Tests
pub mod Signed
pub mod Gate
pub mod Pages
use agent_bakery.Prelude.{
  ℕ, Bool, true, false, not, ◌&&◌, ◌||◌, Option, none, some, String, List, [], ◌∷◌, ◌++◌, ◌==◌,
  str_eq, if◌then◌else◌,
}
use agent_bakery.Prelude.Chars.{Chars, same_text, after_prefix, split_last}
use agent_bakery.Prelude.Text.{codes}
use agent_bakery.Auth.Webhook.{compare_digest, is_empty}

pub record Request : Type 0 where
  pub method : String
  pub path : String
  pub host : Option Chars
  pub origin : Option Chars
  pub referer : Option Chars
  -- The cookie of the token, and the header that echoes it.
  pub cookie : Option Chars
  pub csrf_header : Option Chars
  pub content_type : Chars
  -- The first value that `parse_qs` finds for the token's field in the body.
  pub form_token : Option Chars

-- `_CSRF_PROTECTED_METHODS`
abbrev pub is_protected : String → Bool
is_protected method =
    str_eq method "POST"
    || (str_eq method "PUT" || (str_eq method "PATCH" || str_eq method "DELETE"))

unfoldable pub csrf_exempt : String → Bool
csrf_exempt path = str_eq path "/healthz" || (str_eq path "/readyz" || str_eq path "/metrics.json")

abbrev pub dot : ℕ
dot = b'.'

abbrev pub or_none : Option Chars → Chars
or_none none = []
or_none (some t) = t

-- What `csrf_check` and the middleware make of a request.
pub data Check : Type 0 where
  passed : Check
  rejected : String → Check
  crashed : Check

module _ (sign : Chars → Chars) where
  -- `nonce` is what the random source returns.
  unfoldable pub issue_csrf_token : Chars → Chars
  issue_csrf_token nonce = nonce ++ (dot ∷ sign nonce)

  -- `none` where the comparison raises.
  abbrev pub valid_parts : Option (Chars × Chars) → Option Bool
  valid_parts none = some false
  valid_parts (some (nonce, sig)) =
      if is_empty nonce || is_empty sig then some false else compare_digest sig (sign nonce)

  unfoldable pub csrf_valid : Option Chars → Option Bool
  csrf_valid token = valid_parts (split_last dot (or_none token))

-- The netloc that `urlsplit` finds, `none` where it raises.
module _ (netloc : Chars → Option Chars) where
  -- One header: `none` where it raises.
  abbrev pub header_ok : Option Chars → Option Chars → Option Bool
  header_ok host none = some true
  header_ok host (some []) = some true
  header_ok host (some (c ∷ s)) = elim (netloc (c ∷ s)) [
    | none ↦ none
    | some found ↦
        some (is_empty found || (is_empty (or_none host) || same_text found (or_none host)))
  ]

  unfoldable pub origin_ok : Request → Option Bool
  origin_ok r = elim (header_ok r.host r.origin) [
    | none ↦ none
    | some false ↦ some false
    | some true ↦ header_ok r.host r.referer
  ]

-- "application/x-www-form-urlencoded"
abbrev pub form_type : Chars
form_type = codes "application/x-www-form-urlencoded"

abbrev pub starts_with : Chars → Chars → Bool
starts_with prefix s = elim (after_prefix prefix s) [ none ↦ false | some rest ↦ true ]

abbrev pub echoed : Option Chars → Bool → Option Chars → Option Chars
echoed (some (c ∷ s)) is_form field = some (c ∷ s)
echoed (some []) is_form field = if is_form then field else none
echoed none is_form field = if is_form then field else none

unfoldable pub submitted_csrf : Request → Option Chars
unfolding after_prefix
submitted_csrf r = echoed r.csrf_header (starts_with form_type r.content_type) r.form_token

abbrev pub compared : Option Bool → Check
compared none = crashed
compared (some false) = rejected "CSRF token mismatch"
compared (some true) = passed

-- The checks of the two tokens, given whether each is valid.
abbrev pub check_tokens : Option Chars → Option Chars → Option Bool → Option Bool → Check
check_tokens cookie submitted none b = crashed
check_tokens cookie submitted (some false) b = rejected "missing CSRF token"
check_tokens cookie submitted (some true) none = crashed
check_tokens cookie submitted (some true) (some false) = rejected "missing CSRF token"
check_tokens cookie submitted (some true) (some true) =
    compared (compare_digest (or_none cookie) (or_none submitted))

abbrev pub check_origin : Option Bool → Check → Check
check_origin none rest = crashed
check_origin (some false) rest = rejected "bad origin"
check_origin (some true) rest = rest

module _ (sign : Chars → Chars) (netloc : Chars → Option Chars) where
  unfoldable pub csrf_check : Request → Check
  csrf_check r =
      if not (is_protected r.method)
      then passed
      else if csrf_exempt r.path
      then passed
      else check_origin (origin_ok netloc r) (
          check_tokens r.cookie (submitted_csrf r) (csrf_valid sign r.cookie)
            (csrf_valid sign (submitted_csrf r)))

-- What a route returns, with the token that it has put into `request.state.csrf_issued`.
pub record Routed (B : Type 0) : Type 0 where
  pub body : B
  pub csrf_issued : Option Chars

-- What comes back: a 403 with its reason, a 500, or the route's answer and the cookie that is set.
pub data Outcome (B : Type 0) : Type 0 where
  forbidden : String → Outcome B
  server_error : Outcome B
  answered : B → Option Chars → Outcome B

module _ (sign : Chars → Chars) where
  abbrev pub issued_or_new : Option Chars → Chars → Chars
  issued_or_new none nonce = issue_csrf_token sign nonce
  issued_or_new (some token) nonce = token

  -- On the way out, by whether the cookie that came is valid.
  abbrev pub with_cookie : {B : Type 0} → Option Bool → Routed B → Chars → Outcome B
  with_cookie none routed nonce = server_error
  with_cookie (some true) routed nonce = answered routed.body none
  with_cookie (some false) routed nonce =
      answered routed.body (some (issued_or_new routed.csrf_issued nonce))

  abbrev pub token_by : Option Bool → Option Chars → Chars → Option (Routed Chars)
  token_by none cookie nonce = none
  token_by (some true) cookie nonce = some (record { body = or_none cookie; csrf_issued = none })
  token_by (some false) cookie nonce = some (record {
    body = issue_csrf_token sign nonce;
    csrf_issued = some (issue_csrf_token sign nonce);
  })

  -- The token of a page: the browser's, or a new one; `none` where the check raises.
  unfoldable pub csrf_token : Request → Chars → Option (Routed Chars)
  csrf_token r nonce = token_by (csrf_valid sign r.cookie) r.cookie nonce

  -- The answer, by the check, by what the route returns where it is called, and by the cookie.
  abbrev pub respond : {B : Type 0} → Check → Option (Routed B) → Option Bool → Chars → Outcome B
  respond crashed routed valid nonce = server_error
  respond (rejected reason) routed valid nonce = forbidden reason
  respond passed none valid nonce = server_error
  respond passed (some routed) valid nonce = with_cookie valid routed nonce

  -- `_csrf_middleware`, over a route that may raise.
  unfoldable pub csrf_middleware :
      {B : Type 0}
      → (Chars → Option Chars)
      → (Request → Option (Routed B))
      → Chars
      → Request
      → Outcome B
  csrf_middleware netloc route nonce r =
      respond (csrf_check sign netloc r) (route r) (csrf_valid sign r.cookie) nonce
