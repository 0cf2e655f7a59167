-- ===== src/Service/RedisBucket.antt =====
-- `_allow_redis` of agentkit/server.py: the bucket of an address in Redis, as its script reads and
-- writes it. The source passes the monotonic clock of the host that asks, so the difference of two times
-- may be negative; Redis lets the key expire by its own clock. Units are those of RateLimit.
pub mod Agreement
use agent_bakery.Prelude.{
  ℕ, suc, ◌+◌, ◌*◌, String, Bool, true, false, Option, none, some, List, [], ◌∷◌, ltb,
  if◌then◌else◌,
}
use agent_bakery.Prelude.Int.{ℤ, pos, negsuc, sub_ℕ, ◌+ℤ◌, ◌-ℤ◌, leb_ℤ}
use agent_bakery.Prelude.Dict.{Dict, lookup, insert}
use agent_bakery.Service.RateLimit.{one_token}

-- The hash of a key, with the time at which it expires.
pub record Entry : Type 0 where
  pub tokens : ℤ
  pub ts : ℕ
  pub expires : ℕ

abbrev pub expiry : ℕ
expiry = 120_000_000

-- A multiple of an integer.
abbrev pub scale : ℕ → ℤ → ℤ
scale k (pos n) = pos (n * k)
scale k (negsuc n) = sub_ℕ 0 (suc n * k)

-- What Redis holds under a key, by its clock.
abbrev pub live : ℕ → Option Entry → Option Entry
live at none = none
live at (some e) = if ltb at e.expires then some e else none

-- `if tokens == nil then tokens = rate; ts = now end`
abbrev pub tokens_of : ℕ → Option Entry → ℤ
tokens_of rate none = pos (rate * one_token)
tokens_of rate (some e) = e.tokens

abbrev pub ts_of : ℕ → Option Entry → ℕ
ts_of now none = now
ts_of now (some e) = e.ts

unfoldable pub refilled_redis : ℕ → ℕ → Option Entry → ℤ
refilled_redis rate now e =
    let grown = tokens_of rate e +ℤ scale rate (sub_ℕ now (ts_of now e)) in
    if leb_ℤ (pos (rate * one_token)) grown then pos (rate * one_token) else grown

abbrev pub stored : ℤ → ℕ → ℕ → Entry
stored tokens now at = record { tokens = tokens; ts = now; expires = at + expiry }

-- The script, at a time of the host and one of Redis.
unfoldable pub allow_redis : ℕ → String → ℕ → ℕ → Dict Entry → Bool × Dict Entry
allow_redis rate key now at keys =
    let tokens = refilled_redis rate now (live at (lookup key keys)) in
    if leb_ℤ (pos one_token) tokens
    then (true, insert key (stored (tokens -ℤ pos one_token) now at) keys)
    else (false, insert key (stored tokens now at) keys)
