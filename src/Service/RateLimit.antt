-- ===== src/Service/RateLimit.antt =====
-- `_TokenBucketLimiter` of agentkit/server.py: the bucket that each process keeps for each address,
-- and the choice between it and Redis. Times are microseconds of the monotonic clock, which does not
-- go back, and tokens are counted in parts of `one_token`: a rate of so many tokens per minute then
-- refills so many parts per microsecond.
pub mod Bursts
use agent_bakery.Prelude.{
  ℕ, ◌+◌, ◌-◌, ◌*◌, String, Bool, true, false, Option, none, some, ◌==◌, leb, if◌then◌else◌,
}
use agent_bakery.Prelude.Dict.{Dict, lookup, insert}

abbrev pub one_token : ℕ
one_token = 60000000

-- `ip -> (tokens, last_refill_ts)`
abbrev pub Buckets : Type 0
Buckets = Dict (ℕ × ℕ)

-- `self._local.get(ip, (float(self._rate), now))`
abbrev pub or_full : Option (ℕ × ℕ) → ℕ → ℕ → ℕ × ℕ
or_full none rate now = (rate * one_token, now)
or_full (some bucket) rate now = bucket

unfoldable pub refilled : ℕ → ℕ → ℕ × ℕ → ℕ
refilled rate now (tokens, ts) =
    let grown = tokens + (now - ts) * rate in
    if leb (rate * one_token) grown then rate * one_token else grown

-- `_allow_local`
unfoldable pub allow_local : ℕ → String → ℕ → Buckets → Bool × Buckets
unfolding refilled
allow_local rate ip now buckets =
    let tokens = refilled rate now (or_full (lookup ip buckets) rate now) in
    if leb one_token tokens
    then (true, insert ip (tokens - one_token, now) buckets)
    else (false, insert ip (tokens, now) buckets)

-- `allow`, given what Redis answers, `none` where it cannot be reached or raises.
unfoldable pub allow : ℕ → Option Bool → String → ℕ → Buckets → Bool × Buckets
unfolding allow_local
allow rate redis ip now buckets =
    if rate == 0
    then (true, buckets)
    else elim redis [ some answer ↦ (answer, buckets) | none ↦ allow_local rate ip now buckets ]
