-- ===== src/Dashboard/Session/Upstream.antt =====
-- That the agents accept the dashboard's own token.
use mathlib.Core.Path.{subst}
use agent_bakery.Prelude.{
  ℕ, ◌+◌, ◌<◌, Bool, true, false, ◌≡◌, ◌⊎◌, refl, Option, none, some, String, List, [], ◌∷◌, ◌++◌,
  ltb, str_eq, Bool-cases, inl, inr, arith, ap, sym, ◌∙◌,
}
use agent_bakery.Prelude.Exec.{ok}
use agent_bakery.Prelude.Chars.{Chars, lower, up_to, from_first}
use agent_bakery.Prelude.Text.{codes}
use agent_bakery.Auth.Tokens.{
  Jwt, Decodes, Principal, is_admin, is_among, unless_blank, required_claims, all_present,
  principal_of, verify_token,
}
use agent_bakery.Auth.Webhook.{is_empty}
use agent_bakery.Service.Boot
use agent_bakery.Service.Boot.{let_through, metrics_guard}
use agent_bakery.Dashboard.Session
use agent_bakery.Dashboard.Session.{
  UpstreamToken, no_token, upstream_claims, kept_or_minted, get, auth_header,
}

module _ (jwt : Jwt Chars) (s : Session.Settings) where
  -- A token is one that the dashboard made, with the expiry.
  abbrev IsOwn : Chars → ℕ → Type 0
  IsOwn token exp = token ≡ jwt.encode (upstream_claims s exp) s.jwt_secret "HS256"

  abbrev IsKept : Option Chars → ℕ → Type 0
  IsKept none exp = Unit
  IsKept (some token) exp = IsOwn token exp

  -- What comes of a call: an own token that lasts long enough, and it is kept.
  abbrev Gives : ℕ → Chars × UpstreamToken → Type 0
  Gives now (token, u) =
      IsKept u.token u.exp
      × (exp : ℕ) × IsOwn token exp
      × ((now + 60 < exp) ⊎ (exp ≡ now + s.upstream_token_ttl_s))

  kept-Gives :
      (now : ℕ) (o : Option Chars) (exp : ℕ)
      → IsKept o exp
      → Gives now (kept_or_minted jwt s now o exp)
  kept-Gives now none exp own = (refl, now + s.upstream_token_ttl_s, refl, inr refl)
  kept-Gives now (some token) exp own = elim (Bool-cases (ltb (now + 60) exp)) [
    | inl lasts ↦ rw lasts (own, exp, own, inl (ground arith))
    | inr soon ↦ rw soon (refl, now + s.upstream_token_ttl_s, refl, inr refl)
  ]

  -- What is kept after calls of `auth_header`, the latest of which stands first.
  unfoldable pub after : List ℕ → UpstreamToken
  after [] = no_token
  after (now ∷ calls) = (auth_header jwt s now (after calls)).1

  auth_header-get :
      (now : ℕ) (u : UpstreamToken)
      → str_eq s.jwt_secret "" ≡ false
      → auth_header jwt s now u
        ≡ (some (codes "Bearer " ++ (get jwt s now u).0), (get jwt s now u).1)
  unfolding auth_header
  auth_header-get now u configured = rw configured refl

  after-IsKept :
      str_eq s.jwt_secret "" ≡ false
      → (calls : List ℕ) → IsKept (after calls).token (after calls).exp
  unfolding after get
  after-IsKept configured [] = tt
  after-IsKept configured (now ∷ calls) =
      let u = after calls in
      subst (λ (v : UpstreamToken). IsKept v.token v.exp)
        (sym (ap (λ (o : Option Chars × UpstreamToken). o.1) (auth_header-get now u configured)))
        (kept-Gives now u.token u.exp (after-IsKept configured calls)).0

  -- The agent, which shares the secret and the audience and takes the algorithm of the dashboard.
  module _ (law : (exp : ℕ) → Decodes jwt (upstream_claims s exp)) (agent : Boot.Settings)
      (known : jwt.supports "HS256" ≡ true) (configured : str_eq s.jwt_secret "" ≡ false)
      (secret : agent.jwt_secret ≡ s.jwt_secret)
      (among : is_among "HS256" agent.jwt_algorithms ≡ true)
      (audience : agent.jwt_audience ≡ s.jwt_audience)
      (named : unless_blank s.jwt_audience ≡ s.jwt_audience) where
    upstream_present :
        (exp : ℕ) (aud : Option String)
        → all_present (record (upstream_claims s exp) { aud = aud }) (required_claims aud) ≡ true
    upstream_present exp none = refl
    upstream_present exp (some aud) = refl

    own_verified :
        (token : Chars) (exp later : ℕ)
        → IsOwn token exp
        → later < exp
        → verify_token jwt later token agent.jwt_secret agent.jwt_algorithms agent.jwt_audience
          ≡ ok (record {
            sub = s.upstream_token_sub;
            tenant = "platform";
            role = "admin";
            name = none;
          })
    unfolding verify_token principal_of
    own_verified token exp later own lasts =
        let decoded =
          law exp exp later s.jwt_secret "HS256" agent.jwt_algorithms
            (required_claims (unless_blank s.jwt_audience)) known among
            (upstream_present exp (unless_blank s.jwt_audience)) (ap unless_blank named) tt refl in
        let early : ltb later exp ≡ true = ground arith in
        rw (own, secret, audience ∙ sym named, configured, decoded, early) refl

    header_admitted :
        (metrics_public : Bool) (token : Chars) (later : ℕ) (p : Principal)
        → is_empty token ≡ false
        → verify_token jwt later token agent.jwt_secret agent.jwt_algorithms agent.jwt_audience
          ≡ ok p
        → is_admin p ≡ true
        → metrics_guard jwt agent metrics_public later (codes "Bearer " ++ token) ≡ let_through
    unfolding metrics_guard lower up_to from_first
    header_admitted metrics_public [] later p full verified admin = absurd (ground arith)
    header_admitted true (c ∷ token) later p full verified admin = refl
    header_admitted false (c ∷ token) later p full verified admin =
        let set : str_eq agent.jwt_secret "" ≡ false =
          ap (λ text. str_eq text "") secret ∙ configured in
        rw (set, verified, admin) refl

    -- An agent with the dashboard's secret and audience, which takes tokens signed with HS256, lets the
    -- dashboard through to its metrics with the header that `auth_header` gives, whatever calls came before
    -- at whatever times, for a minute from the call on, or until the token's time to live is over if it is
    -- shorter. The secret is set, an audience is not empty, and the library knows HS256, decodes the
    -- tokens that it makes of the dashboard's claims, and makes no empty ones.
    pub own_token_admitted :
        ((exp : ℕ) → is_empty (jwt.encode (upstream_claims s exp) s.jwt_secret "HS256") ≡ false)
        → (metrics_public : Bool) (calls : List ℕ) (now later : ℕ) → later < now + 60
        → later < now + s.upstream_token_ttl_s
        → (header : Chars) × ((auth_header jwt s now (after calls)).0 ≡ some header)
          × (metrics_guard jwt agent metrics_public later header ≡ let_through)
    own_token_admitted full metrics_public calls now later minute ttl =
        let u = after calls in
        let (kept, exp, own, lasts) =
          kept-Gives now u.token u.exp (after-IsKept configured calls) in
        let token = (kept_or_minted jwt s now u.token u.exp).0 in
        let got : get jwt s now u ≡ kept_or_minted jwt s now u.token u.exp = unfold get in refl in
        let still : later < exp = elim lasts [
          | inl long ↦ omega arith
          | inr new ↦ omega (arith, new)
        ] in
        let admin : is_admin (record {
          sub = s.upstream_token_sub;
          tenant = "platform";
          role = "admin";
          name = none;
        })
            ≡ true =
          unfold is_admin in refl in
        (
          codes "Bearer " ++ token,
          ap (λ (o : Option Chars × UpstreamToken). o.0) (auth_header-get now u configured)
              ∙ ap (λ (o : Chars × UpstreamToken). some (codes "Bearer " ++ o.0)) got,
          header_admitted metrics_public token later _ (ap is_empty own ∙ full exp)
              (own_verified token exp later own still) admin,
        )
