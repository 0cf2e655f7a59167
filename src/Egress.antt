-- ===== src/Egress.antt =====
-- agentkit/egress.py: the allow-list of private mode, and the two guards that consult it, over the
-- code points of texts. `urlparse` is a parameter, `none` where reading the port raises `ValueError`;
-- so is `int`, `none` where the text is no number of a port.
pub mod Guard
mod Tests
use agent_bakery.Prelude.{
  ℕ, zero, suc, ◌-◌, Bool, true, false, not, ◌&&◌, ◌||◌, Option, none, some, List, [], ◌∷◌, map,
  take, drop, length, ◌==◌, leb, if◌then◌else◌,
}
use agent_bakery.Prelude.Chars.{Chars, before, up_to_last, same_text}

pub record Url : Type 0 where
  pub scheme : Chars
  pub hostname : Option Chars
  pub port : Option ℕ

-- `_SCHEME_DEFAULT_PORTS`
abbrev pub default_ports : List (Chars × ℕ)
default_ports =
    (b'h' ∷ b't' ∷ b't' ∷ b'p' ∷ [], 80)
    ∷ (b'h' ∷ b't' ∷ b't' ∷ b'p' ∷ b's' ∷ [], 443)
    ∷ (b'p' ∷ b'o' ∷ b's' ∷ b't' ∷ b'g' ∷ b'r' ∷ b'e' ∷ b's' ∷ b'q' ∷ b'l' ∷ [], 5432)
    ∷ (b'p' ∷ b'o' ∷ b's' ∷ b't' ∷ b'g' ∷ b'r' ∷ b'e' ∷ b's' ∷ [], 5432)
    ∷ (b'a' ∷ b'm' ∷ b'q' ∷ b'p' ∷ [], 5672)
    ∷ (b'a' ∷ b'm' ∷ b'q' ∷ b'p' ∷ b's' ∷ [], 5671)
    ∷ (b'r' ∷ b'e' ∷ b'd' ∷ b'i' ∷ b's' ∷ [], 6379)
    ∷ (b'r' ∷ b'e' ∷ b'd' ∷ b'i' ∷ b's' ∷ b's' ∷ [], 6380)
    ∷ []

abbrev pub port_of_scheme : Chars → List (Chars × ℕ) → Option ℕ
port_of_scheme scheme [] = none
port_of_scheme scheme ((name, port) ∷ ports) =
    if same_text name scheme then some port else port_of_scheme scheme ports

-- `port or default`
abbrev pub port_or : Option ℕ → Option ℕ → Option ℕ
port_or none default = default
port_or (some zero) default = default
port_or (some (suc n)) default = some (suc n)

abbrev pub mutating_methods : List Chars
mutating_methods =
    (b'P' ∷ b'O' ∷ b'S' ∷ b'T' ∷ [])
    ∷ (b'P' ∷ b'U' ∷ b'T' ∷ [])
    ∷ (b'D' ∷ b'E' ∷ b'L' ∷ b'E' ∷ b'T' ∷ b'E' ∷ [])
    ∷ (b'P' ∷ b'A' ∷ b'T' ∷ b'C' ∷ b'H' ∷ [])
    ∷ []

abbrev pub is_among : Chars → List Chars → Bool
is_among x [] = false
is_among x (y ∷ ys) = same_text x y || is_among x ys

-- `str.upper` on ASCII letters.
abbrev pub upper : ℕ → ℕ
upper c = if leb b'a' c && leb c b'z' then c - 32 else c

pub record Settings : Type 0 where
  pub private_mode : Bool
  pub llm_base_url : Chars
  pub database_url : Chars
  pub redis_url : Chars
  pub rabbitmq_url : Chars
  pub egress_safe_write_hosts : List Chars

pub record AllowList : Type 0 where
  pub pairs : List (Chars × ℕ)
  pub safe_write_hosts : List Chars

abbrev pub allows : List (Chars × ℕ) → Chars → ℕ → Bool
allows [] host port = false
allows ((h, p) ∷ pairs) host port = (same_text h host && p == port) || allows pairs host port

abbrev pub Split : Type 0
Split = Option Chars × Option ℕ

abbrev pub append_pair : Split → List (Chars × ℕ) → List (Chars × ℕ)
append_pair (some host, some port) pairs = (host, port) ∷ pairs
append_pair (some host, none) pairs = pairs
append_pair (none, port) pairs = pairs

-- `if host: write_hosts.add(host)`
abbrev pub add_host : Split → List Chars → List Chars
add_host (none, port) hosts = hosts
add_host (some [], port) hosts = hosts
add_host (some (c ∷ host), port) hosts = (c ∷ host) ∷ hosts

-- `rpartition(":")` of a text that has one: the text up to its last colon is `head`.
abbrev pub cut : (Chars → Option ℕ) → Chars → Chars → Split
cut int text head = (some (take (length head - 1) text), int (drop (length head) text))

-- The URLs that `from_settings` reads.
abbrev pub allowed_urls : Settings → List Chars
allowed_urls s = s.llm_base_url ∷ s.database_url ∷ s.redis_url ∷ s.rabbitmq_url ∷ []

infixl 5 ◌>>=◌
abbrev ◌>>=◌ : {A B : Type 0} → Option A → (A → Option B) → Option B
none >>= f = none
some a >>= f = f a

module _ (urlparse : Chars → Option Url) (int : Chars → Option ℕ) where
  abbrev split_url : Option Url → Option Split
  split_url none = none
  split_url (some url) =
      some (url.hostname, port_or url.port (port_of_scheme url.scheme default_ports))

  -- `_split_hostport`, `none` where it raises.
  unfoldable pub split_hostport : Chars → Option Split
  unfolding before up_to_last
  split_hostport [] = some (none, none)
  split_hostport (c ∷ text) = elim (before (b':' ∷ b'/' ∷ b'/' ∷ []) (c ∷ text)) [
    | some scheme ↦ split_url (urlparse (c ∷ text))
    | none ↦ elim (up_to_last b':' (c ∷ text)) [
      | some head ↦ some (cut int (c ∷ text) head)
      | none ↦ some (some (c ∷ text), none)
    ]
  ]

  -- A loop that adds what each text splits into.
  unfoldable pub collect : {A : Type 0} → (Split → List A → List A) → List Chars → Option (List A)
  unfolding split_hostport
  collect add [] = some []
  collect add (text ∷ texts) = do
    part ← split_hostport text
    rest ← collect add texts
    some (add part rest)

  -- `AllowList.from_settings`
  unfoldable pub from_settings : Settings → Option AllowList
  unfolding collect
  from_settings s = do
    pairs ← collect append_pair (allowed_urls s)
    hosts ← collect add_host (s.llm_base_url ∷ s.egress_safe_write_hosts)
    some (record { pairs = pairs; safe_write_hosts = hosts })

pub record Request : Type 0 where
  pub method : Chars
  pub scheme : Chars
  pub host : Chars
  pub port : Option ℕ

pub data Outcome : Type 0 where
  sent : Outcome
  egress_blocked : Outcome
  mutating_verb_blocked : Outcome

-- "https"
abbrev pub https : Chars
https = b'h' ∷ b't' ∷ b't' ∷ b'p' ∷ b's' ∷ []

abbrev pub port_of : Request → ℕ
port_of request = elim (port_or request.port none) [
  | some port ↦ port
  | none ↦ if same_text request.scheme https then 443 else 80
]

abbrev pub is_mutating : Chars → Bool
is_mutating method = is_among (map upper method) mutating_methods

-- `handle_async_request`: what becomes of the request.
unfoldable pub handle_async_request : Bool → AllowList → Request → Outcome
handle_async_request private_mode list request =
    if private_mode
    then if allows list.pairs request.host (port_of request)
      then if is_mutating request.method && not (is_among request.host list.safe_write_hosts)
        then mutating_verb_blocked
        else sent
      else egress_blocked
    else sent

abbrev connect : AllowList → Chars → ℕ → Outcome
connect list host port = if allows list.pairs host port then sent else egress_blocked

abbrev connect_by_settings : Bool → Option AllowList → Chars → ℕ → Option Outcome
connect_by_settings false list host port = some sent
connect_by_settings true none host port = none
connect_by_settings true (some list) host port = some (connect list host port)

-- `guarded_connect`, `none` where building the list raises; `sent` is an opened connection.
unfoldable pub guarded_connect :
    (Chars → Option Url)
    → (Chars → Option ℕ)
    → Option Settings
    → Option AllowList
    → Chars
    → ℕ
    → Option Outcome
unfolding from_settings
guarded_connect urlparse int none none host port = some sent
guarded_connect urlparse int none (some list) host port = some (connect list host port)
guarded_connect urlparse int (some s) (some list) host port =
    connect_by_settings s.private_mode (some list) host port
guarded_connect urlparse int (some s) none host port =
    connect_by_settings s.private_mode (from_settings urlparse int s) host port
