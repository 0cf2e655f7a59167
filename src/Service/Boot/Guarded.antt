-- ===== src/Service/Boot/Guarded.antt =====
-- What an agent that has started has made sure of, by agentkit/server.py and agentkit/config.py.
use agent_bakery.Prelude.{
  ℕ, true, false, ◌&&◌, ◌≡◌, ◌↔◌, refl, [], ◌∷◌, map, str_eq, arith, Bool-cases, inl, inr,
}
use agent_bakery.Prelude.Exec.{Result, ok, raised}
use agent_bakery.Prelude.Chars.{Chars, same_text, same_text_iff, lower, up_to, from_first}
use agent_bakery.Auth.Webhook.{is_empty}
use agent_bakery.Auth.Tokens.{Jwt, Principal, AuthError, is_admin, verify_token}
use agent_bakery.Service.Boot.{
  Settings, gateway_host, is_placeholder, egress_gate_passes, boot, let_through, bearer,
  after_space, guard_token, metrics_guard,
}

-- The token of a header with the scheme "bearer", in any case, is not empty and is an admin's.
abbrev pub IsAdminBearer : Jwt Chars → Settings → ℕ → Chars → Type 0
IsAdminBearer jwt s wall authorization =
    let token = after_space (from_first b' ' authorization) in
    (map lower (up_to b' ' authorization) ≡ bearer)
    × (is_empty token ≡ false)
    × (p : Principal) × (verify_token jwt wall token s.jwt_secret s.jwt_algorithms s.jwt_audience
        ≡ ok p)
    × (is_admin p ≡ true)

-- A principal that is the verified one is an admin where the verified one is.
admin_of :
    {p q : Principal}
    → ◌≡◌ {A = Result AuthError Principal} (ok p) (ok q)
    → is_admin q ≡ true
    → is_admin p ≡ true
admin_of same admin = ground arith

guard_token_iff :
    (token : Chars) (verified : Result AuthError Principal)
    → (guard_token token verified ≡ let_through)
      ↔ ((is_empty token ≡ false) × (p : Principal) × (verified ≡ ok p) × (is_admin p ≡ true))
guard_token_iff [] verified = (λ h. absurd (ground arith), λ h. absurd (ground arith))
guard_token_iff (c ∷ token) (raised e) =
    (λ h. absurd (ground arith), λ h. absurd (ground (arith, h.2)))
guard_token_iff (c ∷ token) (ok p) = elim (Bool-cases (is_admin p)) [
  | inl admin ↦ (λ h. (refl, p, refl, admin), λ h. rw admin refl)
  | inr other ↦ (
    λ h. absurd (ground arith),
    λ (full, q, same, admin). let also = admin_of same admin in absurd (ground arith),
  )
]

-- The guard of an agent with a secret, whose metrics are not public.
metrics_guard_iff :
    (jwt : Jwt Chars) (s : Settings) (wall : ℕ) (authorization : Chars)
    → str_eq s.jwt_secret "" ≡ false
    → (metrics_guard jwt s false wall authorization ≡ let_through)
      ↔ IsAdminBearer jwt s wall authorization
unfolding metrics_guard
metrics_guard_iff jwt s wall authorization secret =
    elim (Bool-cases (same_text (map lower (up_to b' ' authorization)) bearer)) [
      | inl scheme ↦
          rw (secret, scheme)
            (let token = after_space (from_first b' ' authorization) in
              let same = same_text_iff (map lower (up_to b' ' authorization)) bearer in
              let iff =
                guard_token_iff token
                  (verify_token jwt wall token s.jwt_secret s.jwt_algorithms s.jwt_audience) in
              (
                λ h.
                    let (full, p, verified, admin) = iff.0 h in
                    (same.0 scheme, full, p, verified, admin),
                λ (scheme, full, p, verified, admin). iff.1 (full, p, verified, admin),
              ))
      | inr other ↦
          rw (secret, other)
            (let same = same_text_iff (map lower (up_to b' ' authorization)) bearer in
              (
                λ h. absurd (ground arith),
                λ (scheme, full, p, verified, admin).
                    let yes = same.1 scheme in absurd (ground arith),
              ))
    ]

-- An agent that starts outside of development, with metrics that are not made public, lets a request for
-- them through exactly when its header has a bearer token that verifies as an admin's; and where it is in
-- private mode with the boot gate on, the host of its gateway is no placeholder.
pub booted_is_guarded :
    (jwt : Jwt Chars) (s : Settings) (wall : ℕ) (authorization : Chars)
    → str_eq s.env "dev" ≡ false
    → boot s false ≡ ok tt
    → ((metrics_guard jwt s false wall authorization ≡ let_through)
        ↔ IsAdminBearer jwt s wall authorization)
      × ((s.private_mode && s.egress_boot_gate && is_placeholder (gateway_host s.llm_base_url))
          ≡ false)
unfolding boot egress_gate_passes
booted_is_guarded jwt s wall authorization deployed booted =
    let secret : str_eq s.jwt_secret "" ≡ false = ground arith in
    (metrics_guard_iff jwt s wall authorization secret, ground arith)
