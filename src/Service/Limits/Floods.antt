-- ===== src/Service/Limits/Floods.antt =====
-- What a client behind the proxy can get past the limits of agentkit/server.py.
use mathlib.Core.Path.{subst}
use agent_bakery.Prelude.{
  ℕ, ◌+◌, ◌-◌, ◌*◌, ◌≤◌, String, Bool, true, false, ◌≡◌, ◌⊎◌, ◌==◌, refl, Option, none, List, [],
  ◌∷◌, str_eq, arith, Bool-cases, inl, inr, if◌then◌else◌, ap, sym, ◌∙◌,
}
use agent_bakery.Prelude.Chars.{Chars}
use agent_bakery.Service.Metrics.{is_uncounted}
use agent_bakery.Service.RateLimit.{Buckets, allow, allow_local, one_token}
use agent_bakery.Service.RateLimit.Bursts.{Requests, after, granted, granted_bounded, IsMonotonic}
use agent_bakery.Service.Limits.{
  Verdict, passed, too_many, Limiters, Answers, is_llm, dispatch, llm_dispatch, limited,
}
use agent_bakery.Service.Limits.Address.{Arrival, proxied, IsAddress, client_ip-proxied}

-- Whether a request whose path the limiter counts was let through.
abbrev pub counted : String → Verdict → ℕ
counted path passed = if is_uncounted path then 0 else 1
counted path (too_many s) = 0

-- What one request does to the general limiter: nothing, and then it is not counted, or what one
-- request to the bucket of its address does.
abbrev pub IsStep : ℕ → String → String → ℕ → Limiters → Verdict × Limiters → Type 0
IsStep rate path ip now l (verdict, later) =
    let (allowed, general) = allow_local rate ip now l.general in
    ((later.general ≡ l.general) × (counted path verdict ≡ 0))
    ⊎ ((later.general ≡ general) × (counted path verdict ≡ (if allowed then 1 else 0)))

dispatch-IsStep :
    (rate : ℕ) (path ip : String) (now : ℕ) (l : Limiters)
    → (rate == 0) ≡ false
    → IsStep rate path ip now l (dispatch rate none path ip now l)
unfolding dispatch allow
dispatch-IsStep rate path ip now l positive = elim (Bool-cases (is_uncounted path)) [
  | inl exempt ↦ rw exempt (inl (refl, rw exempt refl))
  | inr other ↦ elim (Bool-cases (allow_local rate ip now l.general).0) [
    | inl e ↦ rw (other, positive, e) (inr (refl, rw other refl))
    | inr e ↦ rw (other, positive, e) (inr (refl, refl))
  ]
]

abbrev pub no_redis : Answers
no_redis = record { llm_answer = none; answer = none }

llm_dispatch-dispatch :
    (rate : ℕ) (path ip : String) (now : ℕ) (l : Limiters)
    → (is_llm path ≡ false) ⊎ ((allow rate none ip now l.llm).0 ≡ true)
    → (llm : Buckets) × (llm_dispatch rate no_redis path ip now l
        ≡ dispatch rate none path ip now (record { llm = llm; general = l.general }))
unfolding llm_dispatch dispatch allow
llm_dispatch-dispatch rate path ip now l (inl other) = (l.llm, rw other refl)
llm_dispatch-dispatch rate path ip now l (inr e) = elim (Bool-cases (is_llm path)) [
  | inl llm ↦ ((allow rate none ip now l.llm).1, rw (llm, e) refl)
  | inr other ↦ (l.llm, rw other refl)
]

llm_dispatch-refused :
    (rate : ℕ) (path ip : String) (now : ℕ) (l : Limiters)
    → is_llm path ≡ true
    → (allow rate none ip now l.llm).0 ≡ false
    → (llm : Buckets) × (llm_dispatch rate no_redis path ip now l
        ≡ (too_many 10, record { llm = llm; general = l.general }))
unfolding llm_dispatch dispatch allow
llm_dispatch-refused rate path ip now l llm e = ((allow rate none ip now l.llm).1, rw (llm, e) refl)

llm_dispatch-IsStep :
    (rate : ℕ) (path ip : String) (now : ℕ) (l : Limiters)
    → (rate == 0) ≡ false
    → IsStep rate path ip now l (llm_dispatch rate no_redis path ip now l)
llm_dispatch-IsStep rate path ip now l positive =
    let through : ((is_llm path ≡ false) ⊎ ((allow rate none ip now l.llm).0 ≡ true)) → _ = λ h.
      let (llm, same) = llm_dispatch-dispatch rate path ip now l h in
      subst (IsStep rate path ip now l) (sym same)
        (dispatch-IsStep rate path ip now (record { llm = llm; general = l.general }) positive) in
    elim (Bool-cases (is_llm path)) [
      | inl yes_llm ↦ elim (Bool-cases (allow rate none ip now l.llm).0) [
        | inl e ↦ through (inr e)
        | inr e ↦
            let (llm, same) = llm_dispatch-refused rate path ip now l yes_llm e in
            subst (IsStep rate path ip now l) (sym same) (inl (refl, refl))
      ]
      | inr other ↦ through (inl other)
    ]

-- What has gone through the two limiters, the latest arrival first, with Redis out of reach.
unfoldable pub serve : (Chars → Option String) → ℕ → Limiters → List Arrival → Limiters
serve ip_address rate l [] = l
serve ip_address rate l (a ∷ arrivals) =
    (limited ip_address true rate no_redis (proxied a) a.time (serve ip_address rate l arrivals)).1

-- How many requests of one address, of those the limits are for, got past both.
unfoldable pub got_past : (Chars → Option String) → ℕ → Limiters → String → List Arrival → ℕ
got_past ip_address rate l ip [] = 0
got_past ip_address rate l ip (a ∷ arrivals) =
    (if str_eq a.ip ip
      then counted a.path
          (limited ip_address true rate no_redis (proxied a) a.time
            (serve ip_address rate l arrivals)).0
      else 0)
    + got_past ip_address rate l ip arrivals

-- Each arrival is from an address, and the clock does not go back from a time on and up to another.
abbrev pub Arrivals : (Chars → Option String) → ℕ → List Arrival → ℕ → Type 0
Arrivals ip_address start [] now = start ≤ now
Arrivals ip_address start (a ∷ arrivals) now =
    IsAddress ip_address a × (a.time ≤ now) × Arrivals ip_address start arrivals a.time

limited-llm_dispatch :
    (ip_address : Chars → Option String) (rate : ℕ) (a : Arrival) (now : ℕ) (l : Limiters)
    → IsAddress ip_address a
    → limited ip_address true rate no_redis (proxied a) now l
      ≡ llm_dispatch rate no_redis a.path a.ip now l
unfolding limited
limited-llm_dispatch ip_address rate a now l address =
    ap (λ ip. llm_dispatch rate no_redis a.path ip now l) (client_ip-proxied ip_address a address)

IsMonotonic-later :
    (start t now : ℕ) (rs : Requests) → t ≤ now → IsMonotonic start rs t → IsMonotonic start rs now
IsMonotonic-later start t now [] h m = omega (arith, m)
IsMonotonic-later start t now ((who, time) ∷ rs) h m = (omega (arith, m.0), m.1)

-- Requests to the general limiter's buckets that leave them arrivals the arrivals do.
abbrev Trace : (Chars → Option String) → ℕ → Limiters → String → ℕ → ℕ → List Arrival → Type 0
Trace ip_address rate l ip start now arrivals =
    (rs : Requests) × IsMonotonic start rs now
    × ((serve ip_address rate l arrivals).general ≡ after rate l.general rs)
    × (got_past ip_address rate l ip arrivals ≡ granted rate l.general ip rs)

either_none : (b : Bool) (n : ℕ) → (if b then 0 else 0) + n ≡ n
either_none true n = omega arith
either_none false n = omega arith

module _ (ip_address : Chars → Option String) (rate : ℕ) (positive : (rate == 0) ≡ false)
    (ip : String) (l : Limiters) where
  Trace-add :
      (start now : ℕ) (a : Arrival) (arrivals : List Arrival) (reached : Verdict × Limiters)
      → limited ip_address true rate no_redis (proxied a) a.time (serve ip_address rate l arrivals)
        ≡ reached
      → IsStep rate a.path a.ip a.time (serve ip_address rate l arrivals) reached
      → a.time ≤ now
      → Trace ip_address rate l ip start a.time arrivals
      → Trace ip_address rate l ip start now (a ∷ arrivals)
  unfolding serve got_past after granted
  Trace-add start now a arrivals reached same (inl (kept, none_more)) before (rs, m, general, got) =
      (
        rs,
        IsMonotonic-later start a.time now rs before m,
        ap (λ (o : Verdict × Limiters). o.1.general) same ∙ kept ∙ general,
        rw (same, none_more) (either_none (str_eq a.ip ip) _ ∙ got),
      )
  Trace-add start now a arrivals reached same (inr (stepped, as_many)) before
        (rs, m, general, got) =
      (
        (a.ip, a.time) ∷ rs,
        (before, m),
        ap (λ (o : Verdict × Limiters). o.1.general) same
            ∙ stepped
            ∙ ap (λ b. (allow_local rate a.ip a.time b).1) general,
        rw (same, as_many, general, got) refl,
      )

  trace :
      (start now : ℕ) (arrivals : List Arrival)
      → Arrivals ip_address start arrivals now
      → Trace ip_address rate l ip start now arrivals
  unfolding serve got_past after granted
  trace start now [] m = ([], m, refl, refl)
  trace start now (a ∷ arrivals) (address, before, m) =
      let earlier = serve ip_address rate l arrivals in
      Trace-add start now a arrivals _
        (limited-llm_dispatch ip_address rate a a.time earlier address)
        (llm_dispatch-IsStep rate a.path a.ip a.time earlier positive) before
        (trace start a.time arrivals m)

  -- Behind one proxy that appends the address of its peer to X-Forwarded-For, whatever the clients write
  -- there themselves and however their requests are mixed, the requests of one address, beside those to
  -- the exempt paths, that get past both limiters while Redis is out of reach are, over any span of time,
  -- at most a full burst and what the rate refills in that span. The rate is not 0, the clock does not go
  -- back, and each client's address is a text without commas and white space that `ip_address` reads.
  pub floods_bounded :
      (start now : ℕ) (arrivals : List Arrival)
      → Arrivals ip_address start arrivals now
      → got_past ip_address rate l ip arrivals * one_token ≤ rate * one_token + (now - start) * rate
  floods_bounded start now arrivals m =
      let (rs, monotonic, general, got) = trace start now arrivals m in
      rw got (granted_bounded rate l.general start now ip rs monotonic)
