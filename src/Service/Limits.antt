-- ===== src/Service/Limits.antt =====
-- The middlewares of agentkit/server.py that limit the requests of each address, and `_client_ip`, which
-- says what the address is. `ip_address` is a parameter: the text of an address, where code points are one.
pub mod Address
pub mod Floods
use agent_bakery.Prelude.{
  ℕ, String, Bool, true, false, Option, none, some, List, [], ◌∷◌, if◌then◌else◌,
}
use agent_bakery.Prelude.Chars.{Chars, is_space, strip, split_last, after_prefix}
use agent_bakery.Prelude.Text.{codes}
use agent_bakery.Auth.Webhook.{is_empty}
use agent_bakery.Service.Metrics.{is_uncounted}
use agent_bakery.Service.RateLimit.{Buckets, allow}

-- A request: the header X-Forwarded-For, the peer of the socket and the path.
pub record Request : Type 0 where
  pub forwarded_for : Option Chars
  pub peer : Option String
  pub path : String

-- `request.client.host if request.client else "unknown"`
abbrev pub host_of : Option String → String
host_of none = "unknown"
host_of (some host) = host

abbrev pub or_host : Option String → Option String → String
or_host (some ip) peer = ip
or_host none peer = host_of peer

abbrev pub hop_part : Option (Chars × Chars) → Chars → Chars
hop_part none xff = xff
hop_part (some (front, last)) xff = last

-- `xff.rsplit(",", 1)[-1].strip()`
unfoldable pub last_hop : Chars → Chars
unfolding strip split_last
last_hop xff = strip is_space (hop_part (split_last b',' xff) xff)

-- The last hop of the header, where it is an address. An empty text is none.
abbrev pub hop_ip : (Chars → Option String) → Chars → Option String
hop_ip ip_address [] = none
hop_ip ip_address (c ∷ s) = ip_address (c ∷ s)

abbrev pub forwarded_ip : (Chars → Option String) → Option Chars → Option String
forwarded_ip ip_address none = none
forwarded_ip ip_address (some xff) = if is_empty xff then none else hop_ip ip_address (last_hop xff)

unfoldable pub client_ip : (Chars → Option String) → Bool → Request → String
client_ip ip_address trust_proxy r =
    if trust_proxy then or_host (forwarded_ip ip_address r.forwarded_for) r.peer else host_of r.peer

-- What the middlewares answer: the request goes on to the application, or 429 with the seconds after
-- which to try again.
pub data Verdict : Type 0 where
  passed : Verdict
  too_many : ℕ → Verdict

-- The buckets of the two limiters, and the answers of Redis to each, if it answers.
pub record Limiters : Type 0 where
  pub llm : Buckets
  pub general : Buckets

pub record Answers : Type 0 where
  pub llm_answer : Option Bool
  pub answer : Option Bool

unfoldable pub is_llm : String → Bool
unfolding after_prefix
is_llm path = elim (after_prefix (codes "/llm/") (codes path)) [ some rest ↦ true | none ↦ false ]

-- `_RateLimitMiddleware.dispatch`
unfoldable pub dispatch : ℕ → Option Bool → String → String → ℕ → Limiters → Verdict × Limiters
unfolding allow
dispatch rate answer path ip now l =
    if is_uncounted path
    then (passed, l)
    else (let (allowed, general) = allow rate answer ip now l.general in
        (if allowed then passed else too_many 60, record l { general = general }))

-- `_LLMRateLimitMiddleware.dispatch`, which is added last and so comes first.
unfoldable pub llm_dispatch : ℕ → Answers → String → String → ℕ → Limiters → Verdict × Limiters
unfolding dispatch allow
llm_dispatch rate answers path ip now l =
    let (allowed, llm) = allow rate answers.llm_answer ip now l.llm in
    if is_llm path
    then (if allowed
        then dispatch rate answers.answer path ip now (record l { llm = llm })
        else (too_many 10, record l { llm = llm }))
    else dispatch rate answers.answer path ip now l

unfoldable pub limited :
    (Chars → Option String) → Bool → ℕ → Answers → Request → ℕ → Limiters → Verdict × Limiters
limited ip_address trust_proxy rate answers r now l =
    llm_dispatch rate answers r.path (client_ip ip_address trust_proxy r) now l
