-- ===== src/Service/Limits/Address.antt =====
-- Which address agentkit/server.py finds for a client behind the proxy.
use agent_bakery.Prelude.{
  ℕ, String, true, false, ◌≡◌, refl, Option, none, some, [], ◌∷◌, ◌++◌, arith, if◌then◌else◌, ap,
  ◌∙◌,
}
use agent_bakery.Prelude.Chars.{Chars, is_space, strip, lstrip}
use agent_bakery.Prelude.Cuts.{is_plain, strip-plain, has, split_last-append, split_last-none}
use agent_bakery.Auth.Webhook.{is_empty}
use agent_bakery.Service.Limits.{Request, client_ip, last_hop, hop_part, hop_ip, or_host}

-- A request as a client sends it to the proxy: the client's address as text and as code points, a
-- header X-Forwarded-For of its own making, the path and the time; and the proxy's own address.
pub record Arrival : Type 0 where
  pub ip : String
  pub who : Chars
  pub own : Option Chars
  pub path : String
  pub time : ℕ
  pub proxy : Option String

-- `$proxy_add_x_forwarded_for` of the proxy.
abbrev pub appended : Option Chars → Chars → Chars
appended none who = who
appended (some own) who = own ++ (b',' ∷ b' ' ∷ who)

abbrev pub proxied : Arrival → Request
proxied a = record { forwarded_for = some (appended a.own a.who); peer = a.proxy; path = a.path }

-- The code points are an address: `ip_address` reads them, and no comma or white space is in them.
abbrev pub IsAddress : (Chars → Option String) → Arrival → Type 0
IsAddress ip_address a =
    (ip_address a.who ≡ some a.ip)
    × (is_empty a.who ≡ false)
    × (is_plain a.who ≡ true)
    × (has b',' a.who ≡ false)

strip-space : (s : Chars) → strip is_space (b' ' ∷ s) ≡ strip is_space s
unfolding strip lstrip
strip-space s = refl

last_hop-appended :
    (own : Option Chars) (who : Chars)
    → is_plain who ≡ true
    → has b',' who ≡ false
    → last_hop (appended own who) ≡ who
unfolding last_hop
last_hop-appended none who plain one =
    ap (λ o. strip is_space (hop_part o who)) (split_last-none b',' who one) ∙ strip-plain who plain
last_hop-appended (some own) who plain one =
    ap (λ o. strip is_space (hop_part o (appended (some own) who)))
      (split_last-append b',' own (b' ' ∷ who) one)
    ∙ strip-space who
    ∙ strip-plain who plain

appended_full :
    (own : Option Chars) (who : Chars) → is_empty who ≡ false → is_empty (appended own who) ≡ false
appended_full none who full = full
appended_full (some []) who full = refl
appended_full (some (c ∷ s)) who full = refl

hop_ip-full :
    (ip_address : Chars → Option String) (who : Chars)
    → is_empty who ≡ false
    → hop_ip ip_address who ≡ ip_address who
hop_ip-full ip_address [] full = absurd (ground arith)
hop_ip-full ip_address (c ∷ s) full = refl

pub client_ip-proxied :
    (ip_address : Chars → Option String) (a : Arrival)
    → IsAddress ip_address a
    → client_ip ip_address true (proxied a) ≡ a.ip
unfolding client_ip
client_ip-proxied ip_address a (reads, full, plain, one) =
    let hop = last_hop-appended a.own a.who plain one in
    ap
      (λ b.
        or_host (if b then none else hop_ip ip_address (last_hop (appended a.own a.who))) a.proxy)
      (appended_full a.own a.who full)
    ∙ ap (λ s. or_host (hop_ip ip_address s) a.proxy) hop
    ∙ ap (λ o. or_host o a.proxy) (hop_ip-full ip_address a.who full ∙ reads)
