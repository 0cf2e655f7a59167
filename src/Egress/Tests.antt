-- ===== src/Egress/Tests.antt =====
-- Runs of the models of agentkit/egress.py, and its theorem at a concrete input.
use agent_bakery.Prelude.{
  ℕ, ◌+◌, ◌*◌, ◌-◌, ◌≡◌, ◌≢◌, ◌↔◌, ◌⊎◌, refl, true, false, Option, none, some, [], ◌∷◌,
}
use agent_bakery.Prelude.Chars.{Chars}
use agent_bakery.Egress.{
  Url, Settings, AllowList, Request, sent, mutating_verb_blocked, allowed_urls, is_mutating,
  from_settings, split_hostport, collect, handle_async_request, guarded_connect,
}
use agent_bakery.Egress.Guard.{NamesPair, NamesHost, private_egress_iff}

abbrev digits_from : ℕ → Chars → ℕ
digits_from n [] = n
digits_from n (c ∷ s) = digits_from (n * 10 + (c - b'0')) s

abbrev int : Chars → Option ℕ
int s = some (digits_from 0 s)

-- Reads every URL as the gateway's.
abbrev urlparse : Chars → Option Url
urlparse text = some (record {
  scheme = b'h' ∷ b't' ∷ b't' ∷ b'p' ∷ b's' ∷ [];
  hostname = some (b'g' ∷ b'w' ∷ []);
  port = none;
})

abbrev settings : Settings
settings = record {
  private_mode = true;
  llm_base_url = b's' ∷ b':' ∷ b'/' ∷ b'/' ∷ b'g' ∷ b'w' ∷ [];
  database_url = b'd' ∷ b'b' ∷ b':' ∷ b'5' ∷ b'4' ∷ [];
  redis_url = b'r' ∷ b':' ∷ b'6' ∷ [];
  rabbitmq_url = [];
  egress_safe_write_hosts = [];
}

abbrev list : AllowList
list = record {
  pairs = (b'g' ∷ b'w' ∷ [], 443) ∷ (b'd' ∷ b'b' ∷ [], 54) ∷ (b'r' ∷ [], 6) ∷ [];
  safe_write_hosts = (b'g' ∷ b'w' ∷ []) ∷ [];
}

-- A mutating request to the database's host.
abbrev deletion : Request
deletion = record {
  method = b'd' ∷ b'e' ∷ b'l' ∷ b'e' ∷ b't' ∷ b'e' ∷ [];
  scheme = [];
  host = b'd' ∷ b'b' ∷ [];
  port = some 54;
}

builds : from_settings urlparse int settings ≡ some list
unfolding from_settings split_hostport collect
builds = refl

private_egress_iff_example :
    ((handle_async_request true list deletion ≡ sent) ↔ (
      NamesPair urlparse int (allowed_urls settings) deletion.host 54
      × ((is_mutating deletion.method ≡ false)
          ⊎ ((deletion.host ≢ [])
              × NamesHost urlparse int
                  (settings.llm_base_url ∷ settings.egress_safe_write_hosts)
                  deletion.host))))
    × ((guarded_connect urlparse int (some settings) none (b'd' ∷ b'b' ∷ []) 54 ≡ some sent)
        ↔ NamesPair urlparse int (allowed_urls settings) (b'd' ∷ b'b' ∷ []) 54)
private_egress_iff_example =
    private_egress_iff urlparse int settings list deletion (b'd' ∷ b'b' ∷ []) 54 builds refl

deletion_blocked : handle_async_request true list deletion ≡ mutating_verb_blocked
unfolding handle_async_request
deletion_blocked = refl

-- A verb that is neither one of the four nor read-only goes to any host of the list.
abbrev purge : Request
purge = record deletion { method = b'P' ∷ b'U' ∷ b'R' ∷ b'G' ∷ b'E' ∷ [] }

purge_sent : handle_async_request true list purge ≡ sent
unfolding handle_async_request
purge_sent = refl
