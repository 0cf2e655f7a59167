-- ===== src/Dashboard/Csrf/Pages.antt =====
-- How a browser comes by a CSRF token that dashboard/api.py lets through, and a cookie that keeps it
-- from one.
use agent_bakery.Prelude.{
  true, false, ◌≡◌, ◌≢◌, refl, Option, none, some, [], ◌∷◌, ◌++◌, Bool-cases, Option-cases, inl,
  inr, arith, ap, sym, ◌∙◌,
}
use agent_bakery.Prelude.Chars.{split_last, Chars}
use agent_bakery.Auth.Webhook.{compare_digest, is_empty, is_ascii}
use agent_bakery.Auth.Webhook.Signature.{hex_ascii}
use agent_bakery.Dashboard.Csrf.{
  Request, is_protected, csrf_exempt, dot, or_none, passed, issue_csrf_token, csrf_valid,
  valid_parts, origin_ok, submitted_csrf, csrf_check, Routed, Outcome, forbidden, server_error,
  answered, csrf_token, csrf_middleware, respond,
}
use agent_bakery.Dashboard.Csrf.Signed.{IsSignature, IsIssued, valid-IsIssued}
use agent_bakery.Prelude.Cuts.{has, split_last-append, split_last_parts}
use agent_bakery.Dashboard.Csrf.Gate.{echoed_passes, ascii-issue}

ascii_after : (n sig : Chars) → is_ascii (n ++ (dot ∷ sig)) ≡ true → is_ascii sig ≡ true
ascii_after [] sig h = ground arith
ascii_after (c ∷ n) sig h = ascii_after n sig (ground arith)

-- The token that a page shows.
abbrev pub shown : Outcome Chars → Option Chars
shown (forbidden reason) = none
shown server_error = none
shown (answered token cookie) = some token

-- The cookie that the browser has afterwards.
abbrev pub held : {B : Type 0} → Option Chars → Outcome B → Option Chars
held old (forbidden reason) = old
held old server_error = old
held old (answered body none) = old
held old (answered body (some cookie)) = some cookie

module _ (sign : Chars → Chars) (netloc : Chars → Option Chars) where
  -- A page with a form, by the two nonces that may be drawn.
  abbrev pub visit : Chars → Chars → Request → Outcome Chars
  visit nonce spare page = csrf_middleware sign netloc (λ r. csrf_token sign r nonce) spare page

  unprotected_passes :
      (r : Request) → is_protected r.method ≡ false → csrf_check sign netloc r ≡ passed
  unfolding csrf_check
  unprotected_passes r reads = rw reads refl

  visit-valid :
      (nonce spare : Chars) (page : Request)
      → is_protected page.method ≡ false
      → csrf_valid sign page.cookie ≡ some true
      → visit nonce spare page ≡ answered (or_none page.cookie) none
  unfolding csrf_middleware csrf_token
  visit-valid nonce spare page reads valid = rw (unprotected_passes page reads, valid) refl

  visit-invalid :
      (nonce spare : Chars) (page : Request)
      → is_protected page.method ≡ false
      → csrf_valid sign page.cookie ≡ some false
      → visit nonce spare page
        ≡ answered (issue_csrf_token sign nonce) (some (issue_csrf_token sign nonce))
  unfolding csrf_middleware csrf_token
  visit-invalid nonce spare page reads invalid = rw (unprotected_passes page reads, invalid) refl

  module _ (law : IsSignature sign) where
    post_passes :
        (n : Chars) (post : Request)
        → origin_ok netloc post ≡ some true
        → IsIssued sign n post.cookie
        → is_ascii n ≡ true
        → submitted_csrf post ≡ post.cookie
        → csrf_check sign netloc post ≡ passed
    unfolding csrf_check
    post_passes n post same_host issued plain echo = elim (Bool-cases (is_protected post.method)) [
      | inr reads ↦ rw reads refl
      | inl writes ↦ elim (Bool-cases (csrf_exempt post.path)) [
        | inl exempt ↦ rw (writes, exempt) refl
        | inr guarded ↦
            rw (writes, guarded, same_host)
              (echoed_passes sign netloc law n post.cookie (submitted_csrf post) issued plain echo)
      ]
    ]

    digest_total : (a b : Chars) → is_ascii a ≡ true → is_ascii b ≡ true → compare_digest a b ≢ none
    unfolding compare_digest
    digest_total a b h k e = cc (rw (h, k) at e)

    parts_total : (n sig : Chars) → is_ascii sig ≡ true → valid_parts sign (some (n, sig)) ≢ none
    parts_total n sig h e =
        ground (arith, digest_total sig (sign n) h (hex_ascii (sign n) (law.digits n)))

    -- The check of a token of ASCII characters does not raise.
    ascii_total :
        (token : Option Chars) → is_ascii (or_none token) ≡ true → csrf_valid sign token ≢ none
    unfolding csrf_valid
    ascii_total token h e = elim (Option-cases (split_last dot (or_none token))) [
      | inl undotted ↦ cc (rw undotted at e)
      | inr ((n, sig), split) ↦
          let whole = split_last_parts dot (or_none token) n sig split in
          let ascii : is_ascii sig ≡ true = ascii_after n sig (sym (ap is_ascii whole) ∙ h) in
          parts_total n sig ascii (rw split at e)
    ]

    -- A browser opens a page with a form, with no cookie, one of its own, or one that is not valid, if it
    -- is of ASCII characters. Where the nonce that is drawn is of ASCII characters and not empty, the page
    -- shows the token that the browser's cookie holds afterwards, and a state-changing request of the same
    -- host that has the cookie and echoes what the page shows is let through.
    pub page_then_post :
        (nonce spare : Chars) (page post : Request)
        → is_empty nonce ≡ false
        → is_ascii nonce ≡ true
        → is_protected page.method ≡ false
        → is_ascii (or_none page.cookie) ≡ true
        → origin_ok netloc post ≡ some true
        → post.cookie ≡ held page.cookie (visit nonce spare page)
        → submitted_csrf post ≡ shown (visit nonce spare page)
        → (shown (visit nonce spare page) ≡ post.cookie) × (csrf_check sign netloc post ≡ passed)
    page_then_post nonce spare page post named plain reads ascii same_host cookie echo =
        elim (Option-cases (csrf_valid sign page.cookie)) [
          | inl raises ↦ absurd (ascii_total page.cookie ascii raises)
          | inr (true, valid) ↦
              let same = visit-valid nonce spare page reads valid in
              let (n, issued) = valid-IsIssued sign law page.cookie valid in
              let kept : post.cookie ≡ page.cookie = cookie ∙ ap (held page.cookie) same in
              let show : shown (visit nonce spare page) ≡ page.cookie =
                ap shown same ∙ ap (λ c. some (or_none c)) issued.1 ∙ sym issued.1 in
              let fine : is_ascii n ≡ true =
                sym (ascii-issue sign netloc law n)
                ∙ ap (λ c. is_ascii (or_none c)) (sym issued.1)
                ∙ ascii in
              (
                show ∙ sym kept,
                post_passes n post same_host (issued.0, kept ∙ issued.1) fine
                    (echo ∙ show ∙ sym kept),
              )
          | inr (false, invalid) ↦
              let new = visit-invalid nonce spare page reads invalid in
              let set : post.cookie ≡ some (issue_csrf_token sign nonce) =
                cookie ∙ ap (held page.cookie) new in
              let show : shown (visit nonce spare page) ≡ some (issue_csrf_token sign nonce) =
                ap shown new in
              (
                show ∙ sym set,
                post_passes nonce post same_host (named, set) plain (echo ∙ show ∙ sym set),
              )
        ]

no_answer :
    {B : Type 0} (sign : Chars → Chars) (routed : Option (Routed B)) (nonce : Chars)
    → respond sign passed routed none nonce ≡ server_error
no_answer sign none nonce = refl
no_answer sign (some routed) nonce = refl

foreign_parts :
    (sign : Chars → Chars) (nonce sig : Chars)
    → is_empty nonce ≡ false
    → is_ascii sig ≡ false
    → valid_parts sign (some (nonce, sig)) ≡ none
unfolding compare_digest
foreign_parts sign nonce [] named foreign = absurd (cc foreign)
foreign_parts sign nonce (c ∷ sig) named foreign = rw (named, foreign) refl

foreign_raises :
    (sign : Chars → Chars) (nonce sig : Chars) (cookie : Option Chars)
    → is_empty nonce ≡ false
    → has dot sig ≡ false
    → is_ascii sig ≡ false
    → cookie ≡ some (nonce ++ (dot ∷ sig))
    → csrf_valid sign cookie ≡ none
unfolding csrf_valid
foreign_raises sign nonce sig cookie named undotted foreign e =
    rw e
      (rw (split_last-append dot nonce sig undotted) (foreign_parts sign nonce sig named foreign))

-- A cookie whose signature is not ASCII makes every page fail with a 500: any request that does not
-- change state, with a cookie of a non-empty nonce, a dot and a text without a dot that has a character
-- beyond ASCII, whatever the route.
pub foreign_cookie_fails :
    {B : Type 0} (sign : Chars → Chars) (netloc : Chars → Option Chars)
    (route : Request → Option (Routed B)) (spare nonce sig : Chars) (page : Request)
    → is_protected page.method ≡ false
    → is_empty nonce ≡ false
    → has dot sig ≡ false
    → is_ascii sig ≡ false
    → page.cookie ≡ some (nonce ++ (dot ∷ sig))
    → csrf_middleware sign netloc route spare page ≡ server_error
unfolding csrf_middleware
foreign_cookie_fails sign netloc route spare nonce sig page reads named undotted foreign cookie =
    rw
      (
        unprotected_passes sign netloc page reads,
        foreign_raises sign nonce sig page.cookie named undotted foreign cookie,
      )
      (no_answer sign (route page) spare)
