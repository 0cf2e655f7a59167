-- ===== src/Service/RedisBucket/Agreement.antt =====
-- The two buckets of agentkit/server.py, the one in Redis and the one that a process keeps, on one
-- clock.
use agent_bakery.Prelude.{
  ℕ, ◌+◌, ◌-◌, ◌*◌, ◌≤◌, ◌≡◌, refl, String, Bool, true, false, Option, none, some, List, [], ◌∷◌,
  ltb, leb, str_eq, if◌then◌else◌, arith, Bool-cases, inl, inr, ap, sym, ◌∙◌,
}
use native.Mathlib.Nat.{mul-le-mul_right}
use agent_bakery.Prelude.Int.{pos, sub_ℕ, ◌+ℤ◌, ◌-ℤ◌, leb_ℤ}
use agent_bakery.Prelude.Dict.{Dict, lookup, insert, lookup-insert}
use agent_bakery.Service.RateLimit.{one_token, Buckets, or_full, refilled, allow_local}
use agent_bakery.Service.RedisBucket.{
  Entry, expiry, scale, live, tokens_of, ts_of, refilled_redis, stored, allow_redis,
}

-- The two hold the same of an address: the same tokens as of the same time, not in the future, and the
-- key is set to expire after the time that the script gives it. The clock of Redis is ahead by `skew`.
abbrev Agrees : ℕ → ℕ → Option (ℕ × ℕ) → Option Entry → Type 0
Agrees skew now none none = Unit
Agrees skew now none (some e) = ⊥
Agrees skew now (some b) none = ⊥
Agrees skew now (some (tokens, ts)) (some e) =
    (ts ≤ now) × (e.tokens ≡ pos tokens) × (e.ts ≡ ts) × (e.expires ≡ ts + skew + expiry)

-- What an integer bucket grows to, where the time did not go back.
grown-pos :
    (rate now tokens ts : ℕ)
    → ts ≤ now
    → (pos tokens +ℤ scale rate (sub_ℕ now ts)) ≡ pos (tokens + (now - ts) * rate)
unfolding ◌+ℤ◌
grown-pos rate now tokens ts past =
    let later : leb ts now ≡ true = ground arith in rw later (ground arith)

capped-pos :
    (cap grown : ℕ)
    → (if leb_ℤ (pos cap) (pos grown) then pos cap else pos grown)
      ≡ pos (if leb cap grown then cap else grown)
capped-pos cap grown = ground arith

refilled-pos :
    (rate now tokens ts : ℕ) (e : Option Entry)
    → tokens_of rate e ≡ pos tokens
    → ts_of now e ≡ ts
    → ts ≤ now
    → refilled_redis rate now e ≡ pos (refilled rate now (tokens, ts))
unfolding refilled refilled_redis
refilled-pos rate now tokens ts e same at past =
    rw (same, at)
      (rw (grown-pos rate now tokens ts past)
        (capped-pos (rate * one_token) (tokens + (now - ts) * rate)))

-- A bucket that rested for as long as a key lives is full.
rested-full :
    (rate now tokens ts : ℕ)
    → ts + expiry ≤ now
    → refilled rate now (tokens, ts) ≡ refilled rate now (rate * one_token, now)
unfolding refilled
rested-full rate now tokens ts rest =
    let grown : rate * one_token ≤ tokens + (now - ts) * rate =
      omega (arith, mul-le-mul_right {m = expiry} {n = now - ts} rate (omega arith)) in
    let full : leb (rate * one_token) (tokens + (now - ts) * rate) ≡ true = ground arith in
    let still : leb (rate * one_token) (rate * one_token + (now - now) * rate) ≡ true =
      ground arith in
    rw (full, still) refl

refilled-Agrees :
    (rate skew now : ℕ) (b : Option (ℕ × ℕ)) (e : Option Entry)
    → Agrees skew now b e
    → refilled_redis rate now (live (now + skew) e) ≡ pos (refilled rate now (or_full b rate now))
refilled-Agrees rate skew now none none h =
    refilled-pos rate now (rate * one_token) now none refl refl (omega arith)
refilled-Agrees rate skew now none (some e) h = absurd h
refilled-Agrees rate skew now (some b) none h = absurd h
refilled-Agrees rate skew now (some (tokens, ts)) (some e) (past, same, at, expires) =
    elim (Bool-cases (ltb (now + skew) e.expires)) [
      | inl alive ↦ rw alive (refilled-pos rate now tokens ts (some e) same at past)
      | inr expired ↦ rw expired (
          refilled-pos rate now (rate * one_token) now none refl refl (omega arith)
          ∙ ap pos (sym (rested-full rate now tokens ts (ground arith))))
    ]

-- Times that do not go back, from one on.
abbrev pub IsMonotone : ℕ → List (String × ℕ) → Type 0
IsMonotone now [] = Unit
IsMonotone now ((ip, t) ∷ requests) = (now ≤ t) × IsMonotone t requests

-- The answers to a sequence of requests, each of an address at a time.
unfoldable pub local_answers : ℕ → List (String × ℕ) → Buckets → List Bool
local_answers rate [] buckets = []
local_answers rate ((ip, now) ∷ requests) buckets =
    let (allowed, buckets') = allow_local rate ip now buckets in
    allowed ∷ local_answers rate requests buckets'

unfoldable pub redis_answers : ℕ → ℕ → List (String × ℕ) → Dict Entry → List Bool
redis_answers rate skew [] keys = []
redis_answers rate skew ((ip, now) ∷ requests) keys =
    let (allowed, keys') = allow_redis rate ip now (now + skew) keys in
    allowed ∷ redis_answers rate skew requests keys'

abbrev AllAgree : ℕ → ℕ → Buckets → Dict Entry → Type 0
AllAgree skew now buckets keys =
    (ip : String) → Agrees skew now (lookup ip buckets) (lookup ip keys)

Agrees-later :
    (skew t now : ℕ) (b : Option (ℕ × ℕ)) (e : Option Entry)
    → t ≤ now
    → Agrees skew t b e
    → Agrees skew now b e
Agrees-later skew t now none none le h = tt
Agrees-later skew t now none (some e) le h = h
Agrees-later skew t now (some b) none le h = h
Agrees-later skew t now (some (tokens, ts)) (some e) le (past, same, at, end) =
    (omega arith, same, at, end)

insert-AllAgree :
    (skew t now : ℕ) (ip : String) (tokens : ℕ) (buckets : Buckets) (keys : Dict Entry)
    → t ≤ now
    → AllAgree skew t buckets keys
    → AllAgree skew now
        (insert ip (tokens, now) buckets)
        (insert ip (stored (pos tokens) now (now + skew)) keys)
insert-AllAgree skew t now ip tokens buckets keys le h other =
    rw (lookup-insert ip other (tokens, now) buckets) (
      rw (lookup-insert ip other (stored (pos tokens) now (now + skew)) keys)
        (elim (Bool-cases (str_eq ip other)) [
          | inl same ↦ rw same (omega arith, refl, refl, refl)
          | inr apart ↦
              rw apart
                (Agrees-later skew t now (lookup other buckets) (lookup other keys) le (h other))
        ]))

minus-pos : (a b : ℕ) → leb b a ≡ true → (pos a -ℤ pos b) ≡ pos (a - b)
unfolding ◌-ℤ◌
minus-pos a b h = ground arith

-- The script where the tokens are a natural number.
allow_redis-pos :
    (rate : ℕ) (key : String) (now at tokens : ℕ) (keys : Dict Entry)
    → refilled_redis rate now (live at (lookup key keys)) ≡ pos tokens
    → allow_redis rate key now at keys ≡ (
        if leb one_token tokens
        then (true, insert key (stored (pos (tokens - one_token)) now at) keys)
        else (false, insert key (stored (pos tokens) now at) keys))
unfolding allow_redis
allow_redis-pos rate key now at tokens keys e = elim (Bool-cases (leb one_token tokens)) [
  | inl enough ↦
      let test : leb_ℤ (pos one_token) (pos tokens) ≡ true = ground arith in
      rw e (
        rw (test, enough)
          (ap (λ z. (true, insert key (stored z now at) keys)) (minus-pos tokens one_token enough)))
  | inr few ↦
      let test : leb_ℤ (pos one_token) (pos tokens) ≡ false = ground arith in
      rw e (rw (test, few) refl)
]

module _ (rate skew : ℕ) where
  one_more :
      (t now : ℕ) (ip : String) (buckets : Buckets) (keys : Dict Entry)
      → t ≤ now
      → AllAgree skew t buckets keys
      → let l = allow_local rate ip now buckets in
        let r = allow_redis rate ip now (now + skew) keys in (r.0 ≡ l.0) × AllAgree skew now l.1 r.1
  unfolding allow_local
  one_more t now ip buckets keys le h =
      let tokens = refilled rate now (or_full (lookup ip buckets) rate now) in
      let agrees = Agrees-later skew t now (lookup ip buckets) (lookup ip keys) le (h ip) in
      let same = refilled-Agrees rate skew now (lookup ip buckets) (lookup ip keys) agrees in
      rw (allow_redis-pos rate ip now (now + skew) tokens keys same)
        (elim (Bool-cases (leb one_token tokens)) [
          | inl enough ↦
              rw enough (refl, insert-AllAgree skew t now ip (tokens - one_token) buckets keys le h)
          | inr few ↦ rw few (refl, insert-AllAgree skew t now ip tokens buckets keys le h)
        ])

  answers_agree :
      (t : ℕ) (requests : List (String × ℕ)) (buckets : Buckets) (keys : Dict Entry)
      → IsMonotone t requests
      → AllAgree skew t buckets keys
      → redis_answers rate skew requests keys ≡ local_answers rate requests buckets
  unfolding redis_answers local_answers
  answers_agree t [] buckets keys m h = refl
  answers_agree t ((ip, now) ∷ requests) buckets keys m h =
      let (same, next) = one_more t now ip buckets keys m.0 h in
      let rest = answers_agree now requests _ _ m.1 next in (λ i. same i ∷ rest i)

-- On one clock that does not go back, by which the clock of Redis is ahead by a fixed time, the bucket in
-- Redis gives the same answers as the bucket that a process keeps, to any sequence of requests of any
-- addresses: a key that expires would be full by then.
pub redis_answers-local :
    (rate skew : ℕ) (requests : List (String × ℕ))
    → IsMonotone 0 requests
    → redis_answers rate skew requests [] ≡ local_answers rate requests []
redis_answers-local rate skew requests m = answers_agree rate skew 0 requests [] [] m (λ ip. tt)
