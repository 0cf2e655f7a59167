-- ===== src/Dashboard/Csrf/Tests.antt =====
-- Runs of the model of the CSRF guard of dashboard/api.py, and its theorems at concrete inputs.
use agent_bakery.Prelude.{ℕ, ◌++◌, ◌≡◌, ◌↔◌, refl, some, none, Option, [], ◌∷◌}
use agent_bakery.Prelude.Chars.{Chars, split_last}
use agent_bakery.Prelude.Text.{codes}
use agent_bakery.Dashboard.Csrf.{
  Request, passed, origin_ok, submitted_csrf, csrf_exempt, csrf_valid, csrf_check, Routed,
  server_error, csrf_token, csrf_middleware, dot, issue_csrf_token,
}
use agent_bakery.Dashboard.Csrf.Signed.{IsSignature}
use agent_bakery.Dashboard.Csrf.Gate.{NamesNoOther, Echoes, csrf_check_iff}
use agent_bakery.Dashboard.Csrf.Pages.{shown, visit, page_then_post, foreign_cookie_fails}

-- A stand-in for the HMAC: a digest of hexadecimal digits.
abbrev sign : Chars → Chars
sign nonce = codes "c0ffee"

abbrev sign-IsSignature : IsSignature sign
sign-IsSignature = record { digits = λ nonce. refl; some_digits = λ nonce. refl }

-- A stand-in for `urlsplit`.
abbrev netloc : Chars → Option Chars
netloc url = some (codes "bakery")

abbrev page : Request
page = record {
  method = "GET";
  path = "/tokens";
  host = some (codes "bakery");
  origin = none;
  referer = none;
  cookie = none;
  csrf_header = none;
  content_type = [];
  form_token = none;
}

abbrev nonce : Chars
nonce = codes "n1"

abbrev post : Request
post = record page {
  method = "POST";
  origin = some (codes "https://bakery");
  cookie = some (codes "n1.c0ffee");
  csrf_header = some (codes "n1.c0ffee");
}

csrf_check_iff_example : (csrf_check sign netloc post ≡ passed) ↔ (
    NamesNoOther netloc post.host post.origin
    × NamesNoOther netloc post.host post.referer
    × Echoes sign netloc sign-IsSignature post)
unfolding csrf_exempt
csrf_check_iff_example = csrf_check_iff sign netloc sign-IsSignature post refl refl

page_then_post_example :
    (shown (visit sign netloc nonce [] page) ≡ post.cookie) × (csrf_check sign netloc post ≡ passed)
unfolding origin_ok csrf_middleware csrf_check csrf_valid csrf_token submitted_csrf split_last
    issue_csrf_token
page_then_post_example =
    page_then_post sign netloc sign-IsSignature nonce [] page post refl refl refl refl refl refl
      refl

abbrev route : Request → Option (Routed ℕ)
route r = some (record { body = 1; csrf_issued = none })

-- A cookie whose signature is the letter é.
abbrev foreign : Request
foreign = record page { cookie = some (nonce ++ (dot ∷ 233 ∷ [])) }

foreign_cookie_fails_example : csrf_middleware sign netloc route [] foreign ≡ server_error
foreign_cookie_fails_example =
    foreign_cookie_fails sign netloc route [] nonce (233 ∷ []) foreign refl refl refl refl refl
