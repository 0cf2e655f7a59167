-- ===== src/Service/RateLimit/Bursts.antt =====
-- How much the token bucket of agentkit/server.py lets through.
use native.Mathlib.Nat.{add-mul}
use agent_bakery.Prelude.{
  eq_iff, Bool, Bool-cases, inl, inr, true, false, leb, refl, ℕ, ◌+◌, ◌-◌, ◌*◌, ◌≤◌, ◌<◌, String,
  ◌≡◌, ◌⊎◌, ap, sym, ◌∙◌, Option, none, some, List, [], ◌∷◌, str_eq, arith, if◌then◌else◌,
}
use agent_bakery.Prelude.Dict.{lookup-insert, lookup, insert}
use agent_bakery.Service.RateLimit.{or_full, refilled, one_token, Buckets, allow_local}

-- The requests of all clients, the latest first, and the buckets after them.
abbrev pub Requests : Type 0
Requests = List (String × ℕ)

unfoldable pub after : ℕ → Buckets → Requests → Buckets
after rate base [] = base
after rate base ((ip, now) ∷ rs) = (allow_local rate ip now (after rate base rs)).1

-- The clock does not go back, from a time on and up to another.
abbrev pub IsMonotonic : ℕ → Requests → ℕ → Type 0
IsMonotonic start [] now = start ≤ now
IsMonotonic start ((ip, t) ∷ rs) now = (t ≤ now) × IsMonotonic start rs t

-- How many requests of one client were let through.
unfoldable pub granted : ℕ → Buckets → String → Requests → ℕ
granted rate base ip [] = 0
granted rate base ip ((who, now) ∷ rs) =
    (if str_eq who ip
      then (if (allow_local rate who now (after rate base rs)).0 then 1 else 0)
      else 0)
    + granted rate base ip rs

-- What is known of the bucket of a client: nothing was let through yet, or what was let through and
-- what is left are together no more than a full bucket and what was refilled since the start.
abbrev Covers : ℕ → ℕ → ℕ → Option (ℕ × ℕ) → ℕ → Type 0
Covers rate start now none n = (n ≡ 0) × (start ≤ now)
Covers rate start now (some (tokens, ts)) n =
    ((n ≡ 0) × (start ≤ now))
    ⊎ ((n * one_token + tokens + start * rate ≤ rate * one_token + ts * rate)
        × (ts ≤ now)
        × (start ≤ ts))

refill : (rate t now : ℕ) → t ≤ now → (now - t) * rate + t * rate ≡ now * rate
refill rate t now h = sym (add-mul (now - t) t rate) ∙ ap (λ n. n * rate) (omega arith)

mul-le : (rate a b : ℕ) → a ≤ b → a * rate ≤ b * rate
mul-le rate a b h = omega (arith, refill rate a b h)

-- What `allow_local` does to the one bucket it reads.
outcome : ℕ → ℕ → Option (ℕ × ℕ) → Bool × ℕ × ℕ
outcome rate now o =
    let tokens = refilled rate now (or_full o rate now) in
    if leb one_token tokens then (true, tokens - one_token, now) else (false, tokens, now)

allow_local-outcome :
    (rate : ℕ) (ip : String) (now : ℕ) (buckets : Buckets)
    → let (allowed, tokens, ts) = outcome rate now (lookup ip buckets) in
      allow_local rate ip now buckets ≡ (allowed, insert ip (tokens, ts) buckets)
unfolding allow_local outcome
allow_local-outcome rate ip now buckets =
    elim (Bool-cases (leb one_token (refilled rate now (or_full (lookup ip buckets) rate now)))) [
      | inl e ↦ rw e refl
      | inr e ↦ rw e refl
    ]

refilled_le :
    (rate now tokens ts : ℕ)
    → (refilled rate now (tokens, ts) ≤ rate * one_token)
      × (refilled rate now (tokens, ts) ≤ tokens + (now - ts) * rate)
unfolding refilled
refilled_le rate now tokens ts = ground arith

outcome-Covers :
    (rate start t now n : ℕ) (o : Option (ℕ × ℕ))
    → t ≤ now
    → Covers rate start t o n
    → let (allowed, tokens, ts) = outcome rate now o in
      Covers rate start now (some (tokens, ts)) ((if allowed then 1 else 0) + n)
unfolding outcome
outcome-Covers rate start t now n none h (none_yet, begun) =
    let full = refilled_le rate now (rate * one_token) now in
    let grows = mul-le rate start now (omega arith) in
    elim (Bool-cases (leb one_token (refilled rate now (rate * one_token, now)))) [
      | inl e ↦ rw e (inr (ground arith, omega arith, omega arith))
      | inr e ↦ rw e (inr (omega arith, omega arith, omega arith))
    ]
outcome-Covers rate start t now n (some (tokens, ts)) h (inl (none_yet, begun)) =
    let full = refilled_le rate now tokens ts in
    let grows = mul-le rate start now (omega arith) in
    elim (Bool-cases (leb one_token (refilled rate now (tokens, ts)))) [
      | inl e ↦ rw e (inr (ground arith, omega arith, omega arith))
      | inr e ↦ rw e (inr (omega arith, omega arith, omega arith))
    ]
outcome-Covers rate start t now n (some (tokens, ts)) h (inr (covered, before, begun)) =
    let grown = refilled_le rate now tokens ts in
    let same = refill rate ts now (omega arith) in
    elim (Bool-cases (leb one_token (refilled rate now (tokens, ts)))) [
      | inl e ↦ rw e (inr (ground arith, omega arith, omega arith))
      | inr e ↦ rw e (inr (omega arith, omega arith, omega arith))
    ]

Covers-later :
    (rate start t now n : ℕ) (o : Option (ℕ × ℕ))
    → t ≤ now
    → Covers rate start t o n
    → Covers rate start now o n
Covers-later rate start t now n none h c = (c.0, omega (arith, c.1))
Covers-later rate start t now n (some (tokens, ts)) h (inl c) = inl (c.0, omega (arith, c.1))
Covers-later rate start t now n (some (tokens, ts)) h (inr c) = inr (c.0, omega (arith, c.1), c.2)

lookup-after :
    (rate : ℕ) (base : Buckets) (t : ℕ) (who ip : String) (rs : Requests)
    → let (allowed, tokens, ts) = outcome rate t (lookup who (after rate base rs)) in
      lookup ip (after rate base ((who, t) ∷ rs))
      ≡ (if str_eq who ip then some (tokens, ts) else lookup ip (after rate base rs))
unfolding after
lookup-after rate base t who ip rs =
    let (allowed, tokens, ts) = outcome rate t (lookup who (after rate base rs)) in
    ap (λ (o : Bool × Buckets). lookup ip o.1) (allow_local-outcome rate who t (after rate base rs))
    ∙ lookup-insert who ip (tokens, ts) (after rate base rs)

granted-same :
    (rate : ℕ) (base : Buckets) (t : ℕ) (who ip : String) (rs : Requests)
    → str_eq who ip ≡ true
    → granted rate base ip ((who, t) ∷ rs)
      ≡ (if (outcome rate t (lookup ip (after rate base rs))).0 then 1 else 0)
        + granted rate base ip rs
unfolding granted
granted-same rate base t who ip rs same =
    rw (same, allow_local-outcome rate who t (after rate base rs), (eq_iff who ip).0 same) refl

granted-other :
    (rate : ℕ) (base : Buckets) (t : ℕ) (who ip : String) (rs : Requests)
    → str_eq who ip ≡ false
    → granted rate base ip ((who, t) ∷ rs) ≡ granted rate base ip rs
unfolding granted
granted-other rate base t who ip rs other = rw other (omega arith)

nothing_yet :
    (rate : ℕ) (base : Buckets) (start now : ℕ) (ip : String)
    → start ≤ now
    → Covers rate start now (lookup ip (after rate base [])) (granted rate base ip [])
unfolding after granted
nothing_yet rate base start now ip m = of (lookup ip base)
  where
    of : (o : Option (ℕ × ℕ)) → Covers rate start now o 0
    of none = (refl, m)
    of (some (tokens, ts)) = inl (refl, m)

after-Covers :
    (rate : ℕ) (base : Buckets) (start now : ℕ) (ip : String) (rs : Requests)
    → IsMonotonic start rs now
    → Covers rate start now (lookup ip (after rate base rs)) (granted rate base ip rs)
after-Covers rate base start now ip [] m = nothing_yet rate base start now ip m
after-Covers rate base start now ip ((who, t) ∷ rs) m =
    let before = after-Covers rate base start t ip rs m.1 in
    elim (Bool-cases (str_eq who ip)) [
      | inl same ↦
          rw
            (
              lookup-after rate base t who ip rs,
              granted-same rate base t who ip rs same,
              same,
              (eq_iff who ip).0 same,
            )
            (let o = lookup ip (after rate base rs) in
              let (allowed, tokens, ts) = outcome rate t o in
              Covers-later rate start t now _ (some (tokens, ts)) m.0
                (outcome-Covers rate start t t (granted rate base ip rs) o (omega arith) before))
      | inr other ↦
          rw (lookup-after rate base t who ip rs, granted-other rate base t who ip rs other, other)
            (Covers-later rate start t now (granted rate base ip rs) _ m.0 before)
    ]

-- Over any span of time, whatever the buckets hold at its start and however the requests of other
-- clients are mixed in, one client is let through at most a full burst and what the rate refills in
-- that span, with a clock that does not go back.
pub granted_bounded :
    (rate : ℕ) (base : Buckets) (start now : ℕ) (ip : String) (rs : Requests)
    → IsMonotonic start rs now
    → granted rate base ip rs * one_token ≤ rate * one_token + (now - start) * rate
granted_bounded rate base start now ip rs m =
    of (lookup ip (after rate base rs)) (after-Covers rate base start now ip rs m)
  where
    of :
        (o : Option (ℕ × ℕ))
        → Covers rate start now o (granted rate base ip rs)
        → granted rate base ip rs * one_token ≤ rate * one_token + (now - start) * rate
    of none c = omega (arith, c.0)
    of (some (tokens, ts)) (inl c) = omega (arith, c.0)
    of (some (tokens, ts)) (inr (covered, before, begun)) =
        let here = refill rate start now (omega arith) in
        let later = mul-le rate ts now before in omega arith

-- Enough time for one token has passed since each request of a client.
abbrev pub IsRested : ℕ → String → ℕ → Requests → Type 0
IsRested rate ip now [] = Unit
IsRested rate ip now ((who, t) ∷ rs) =
    (str_eq who ip ≡ true → one_token ≤ (now - t) * rate) × IsRested rate ip now rs

abbrev Refills : ℕ → ℕ → Option (ℕ × ℕ) → Type 0
Refills rate now none = Unit
Refills rate now (some (tokens, ts)) = one_token ≤ (now - ts) * rate

outcome_time : (rate now : ℕ) (o : Option (ℕ × ℕ)) → (outcome rate now o).2 ≡ now
unfolding outcome
outcome_time rate now o = ground arith

none-Refills : (rate now : ℕ) (ip : String) → Refills rate now (lookup ip (after rate [] []))
unfolding after
none-Refills rate now ip = tt

after-Refills :
    (rate now : ℕ) (ip : String) (rs : Requests)
    → IsRested rate ip now rs
    → Refills rate now (lookup ip (after rate [] rs))
after-Refills rate now ip [] h = none-Refills rate now ip
after-Refills rate now ip ((who, t) ∷ rs) h = elim (Bool-cases (str_eq who ip)) [
  | inl same ↦
      rw (lookup-after rate [] t who ip rs, same)
        (rw (outcome_time rate t (lookup who (after rate [] rs))) (h.0 same))
  | inr other ↦ rw (lookup-after rate [] t who ip rs, other) (after-Refills rate now ip rs h.1)
]

-- No client is shut out: with a rate above 0, a client whose last request lies at least one token's
-- refill back is let through, whatever happened before and whatever the others do.
pub rested_is_allowed :
    (rate now : ℕ) (ip : String) (rs : Requests)
    → 0 < rate
    → IsRested rate ip now rs
    → (allow_local rate ip now (after rate [] rs)).0 ≡ true
unfolding allow_local refilled
rested_is_allowed rate now ip rs h rested =
    of (lookup ip (after rate [] rs)) refl (after-Refills rate now ip rs rested)
  where
    of :
        (o : Option (ℕ × ℕ))
        → lookup ip (after rate [] rs) ≡ o
        → Refills rate now o
        → (allow_local rate ip now (after rate [] rs)).0 ≡ true
    of none e c = rw e (ground arith)
    of (some (tokens, ts)) e c = rw e (ground arith)
