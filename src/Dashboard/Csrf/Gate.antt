-- ===== src/Dashboard/Csrf/Gate.antt =====
-- Which requests the CSRF guard of dashboard/api.py lets through.
use agent_bakery.Prelude.{
  Bool, true, false, ◌⊎◌, inl, inr, ◌||◌, ◌&&◌, ◌≡◌, ◌↔◌, refl, Option, none, some, Bool-cases,
  Option-cases, [], ◌∷◌, ◌++◌, arith, ap, sym, ◌∙◌,
}
use agent_bakery.Prelude.Chars.{Chars, same_text, same_text_iff}
use agent_bakery.Auth.Webhook.{is_empty, compare_digest, is_ascii}
use agent_bakery.Auth.Webhook.Signature.{hex_ascii}
use agent_bakery.Dashboard.Csrf.{
  Request, is_protected, csrf_exempt, dot, or_none, Check, passed, header_ok, issue_csrf_token,
  csrf_valid, origin_ok, submitted_csrf, check_tokens, check_origin, csrf_check,
}
use agent_bakery.Dashboard.Csrf.Signed.{IsSignature, IsIssued, csrf_valid-issue, valid-IsIssued}

origin_passed :
    (o : Option Bool) (k : Check) → check_origin o k ≡ passed → (o ≡ some true) × (k ≡ passed)
origin_passed none k h = absurd (cc h)
origin_passed (some false) k h = absurd (cc h)
origin_passed (some true) k h = (refl, h)

tokens_passed :
    (c s : Option Chars) (a b : Option Bool)
    → check_tokens c s a b ≡ passed
    → (a ≡ some true) × (b ≡ some true) × (compare_digest (or_none c) (or_none s) ≡ some true)
tokens_passed c s a b h = ground arith

tokens_pass :
    (c s : Option Chars) (a b : Option Bool)
    → a ≡ some true
    → b ≡ some true
    → compare_digest (or_none c) (or_none s) ≡ some true
    → check_tokens c s a b ≡ passed
tokens_pass c s a b h k same = rw (h, k, same) refl

ascii-append : (s t : Chars) → is_ascii (s ++ t) ≡ (is_ascii s && is_ascii t)
ascii-append [] t = refl
ascii-append (c ∷ s) t = ground (arith, ascii-append s t)

digest_iff :
    (a b : Chars)
    → (compare_digest a b ≡ some true) ↔ ((is_ascii a ≡ true) × (is_ascii b ≡ true) × (a ≡ b))
unfolding compare_digest
digest_iff a b = (λ h. ground (arith, same_text_iff a b), λ h. ground (arith, same_text_iff a b))

empty_iff : (s : Chars) → (is_empty s ≡ true) ↔ (s ≡ [])
empty_iff [] = (λ h. refl, λ h. refl)
empty_iff (c ∷ s) = (λ h. cc, λ h. cc)

same_host_iff :
    (found host : Chars)
    → ((is_empty found || (is_empty host || same_text found host)) ≡ true)
      ↔ ((found ≡ []) ⊎ ((host ≡ []) ⊎ (found ≡ host)))
same_host_iff found host = (
  λ h. elim (Bool-cases (is_empty found)) [
    | inl e ↦ inl ((empty_iff found).0 e)
    | inr e ↦ elim (Bool-cases (is_empty host)) [
      | inl e' ↦ inr (inl ((empty_iff host).0 e'))
      | inr e' ↦ inr (inr ((same_text_iff found host).0 (ground (arith, h, e, e'))))
    ]
  ],
  λ h. elim h [
    | inl e ↦ ground (arith, (empty_iff found).1 e)
    | inr (inl e) ↦ ground (arith, (empty_iff host).1 e)
    | inr (inr e) ↦ ground (arith, (same_text_iff found host).1 e)
  ],
)

module _ (netloc : Chars → Option Chars) where
  -- A header, beside the host's: it is absent or empty, or `urlsplit` finds a netloc that is empty or is
  -- the host, or there is no host to compare it with.
  abbrev pub NamesNoOther : Option Chars → Option Chars → Type 0
  NamesNoOther host none = Unit
  NamesNoOther host (some []) = Unit
  NamesNoOther host (some (c ∷ s)) =
      (found : Chars) × (netloc (c ∷ s) ≡ some found)
      × ((found ≡ []) ⊎ ((or_none host ≡ []) ⊎ (found ≡ or_none host)))

  header_ok_iff :
      (host value : Option Chars)
      → (header_ok netloc host value ≡ some true) ↔ NamesNoOther host value
  header_ok_iff host none = (λ h. tt, λ h. refl)
  header_ok_iff host (some []) = (λ h. tt, λ h. refl)
  header_ok_iff host (some (c ∷ s)) = (
    λ h. elim (Option-cases (netloc (c ∷ s))) [
      | inl e ↦ absurd (cc (rw (e, header_ok) at h))
      | inr (found, e) ↦ (
        found,
        e,
        (same_host_iff found (or_none host)).0 (ground (arith, rw (e, header_ok) at h)),
      )
    ],
    λ (found, e, names). rw (e, header_ok) (ap some ((same_host_iff found (or_none host)).1 names)),
  )

  origin_ok_iff :
      (r : Request)
      → (origin_ok netloc r ≡ some true)
        ↔ (NamesNoOther r.host r.origin × NamesNoOther r.host r.referer)
  unfolding origin_ok
  origin_ok_iff r =
      both (header_ok netloc r.host r.origin) (header_ok_iff r.host r.origin)
        (header_ok_iff r.host r.referer)
    where
      both :
          (o : Option Bool)
          → ((o ≡ some true) ↔ NamesNoOther r.host r.origin)
          → ((header_ok netloc r.host r.referer ≡ some true) ↔ NamesNoOther r.host r.referer)
          → ((elim o as (λ _. Option Bool) [
            | none ↦ none
            | some false ↦ some false
            | some true ↦ header_ok netloc r.host r.referer
          ])
              ≡ some true)
            ↔ (NamesNoOther r.host r.origin × NamesNoOther r.host r.referer)
      both none a b = (λ h. cc, λ h. absurd (cc (a.1 h.0)))
      both (some false) a b = (λ h. cc, λ h. absurd (cc (a.1 h.0)))
      both (some true) a b = (λ h. (a.0 refl, b.0 h), λ h. b.1 h.1)

module _ (sign : Chars → Chars) (netloc : Chars → Option Chars) (law : IsSignature sign) where
  pub ascii-issue : (nonce : Chars) → is_ascii (issue_csrf_token sign nonce) ≡ is_ascii nonce
  unfolding issue_csrf_token
  ascii-issue nonce =
      ascii-append nonce (dot ∷ sign nonce)
      ∙ ground (arith, hex_ascii (sign nonce) (law.digits nonce))

  -- The tokens that a request carries where it passes.
  abbrev pub Echoes : Request → Type 0
  Echoes r =
      (nonce : Chars) × IsIssued sign nonce r.cookie
      × (is_ascii nonce ≡ true)
      × (submitted_csrf r ≡ r.cookie)

  echoes_of :
      (cookie submitted : Option Chars)
      → csrf_valid sign cookie ≡ some true
      → csrf_valid sign submitted ≡ some true
      → compare_digest (or_none cookie) (or_none submitted) ≡ some true
      → (nonce : Chars) × IsIssued sign nonce cookie
        × (is_ascii nonce ≡ true)
        × (submitted ≡ cookie)
  echoes_of cookie submitted a b same =
      let (nonce, issued) = valid-IsIssued sign law cookie a in
      let (other, issued') = valid-IsIssued sign law submitted b in
      let (ascii, ascii', equal) = (digest_iff (or_none cookie) (or_none submitted)).0 same in
      let plain : is_ascii nonce ≡ true =
        sym (ascii-issue nonce) ∙ ap (λ c. is_ascii (or_none c)) (sym issued.1) ∙ ascii in
      let one_token : issue_csrf_token sign nonce ≡ issue_csrf_token sign other =
        ap or_none (sym issued.1) ∙ equal ∙ ap or_none issued'.1 in
      (nonce, issued, plain, issued'.1 ∙ ap some (sym one_token) ∙ sym issued.1)

  valid_of :
      (nonce : Chars) (token : Option Chars)
      → IsIssued sign nonce token
      → csrf_valid sign token ≡ some true
  valid_of nonce token issued =
      ap (csrf_valid sign) issued.1 ∙ csrf_valid-issue sign law nonce issued.0

  digest_of :
      (nonce : Chars) (token : Option Chars)
      → IsIssued sign nonce token
      → is_ascii nonce ≡ true
      → compare_digest (or_none token) (or_none token) ≡ some true
  digest_of nonce token issued plain =
      let ascii : is_ascii (or_none token) ≡ true =
        ap (λ c. is_ascii (or_none c)) issued.1 ∙ ascii-issue nonce ∙ plain in
      (digest_iff (or_none token) (or_none token)).1 (ascii, ascii, refl)

  -- A request whose tokens are the cookie and an echo of it.
  pub echoed_passes :
      (nonce : Chars) (cookie submitted : Option Chars)
      → IsIssued sign nonce cookie
      → is_ascii nonce ≡ true
      → submitted ≡ cookie
      → check_tokens cookie submitted (csrf_valid sign cookie) (csrf_valid sign submitted) ≡ passed
  echoed_passes nonce cookie submitted issued plain e = rw e (
      tokens_pass cookie cookie _ _ (valid_of nonce cookie issued) (valid_of nonce cookie issued)
        (digest_of nonce cookie issued plain))

  -- With a signature of hexadecimal digits: a state-changing request beside the exempt paths is let
  -- through exactly when neither its Origin nor its Referer names a host other than its Host header's,
  -- its cookie is a token that the dashboard issued for a nonce of ASCII characters, and the request
  -- echoes the cookie. A header names no other host where it is absent or empty, and where `urlsplit` does
  -- not raise and finds the Host header's netloc, or none, as in `Origin: null`, or any while the Host
  -- header is absent or empty.
  pub csrf_check_iff :
      (r : Request)
      → is_protected r.method ≡ true
      → csrf_exempt r.path ≡ false
      → (csrf_check sign netloc r ≡ passed)
        ↔ (NamesNoOther netloc r.host r.origin × NamesNoOther netloc r.host r.referer × Echoes r)
  unfolding csrf_check
  csrf_check_iff r writes guarded = (
    λ h.
        let (same_host, rest) = origin_passed (origin_ok netloc r) _ (rw (writes, guarded) at h) in
        let (a, b, same) =
          tokens_passed r.cookie (submitted_csrf r) (csrf_valid sign r.cookie)
            (csrf_valid sign (submitted_csrf r)) rest in
        let (origin, referer) = (origin_ok_iff netloc r).0 same_host in
        (origin, referer, echoes_of r.cookie (submitted_csrf r) a b same),
    λ h.
        let (nonce, issued, plain, e) = h.2 in
        rw (writes, guarded, (origin_ok_iff netloc r).1 (h.0, h.1))
          (echoed_passes nonce r.cookie (submitted_csrf r) issued plain e),
  )
