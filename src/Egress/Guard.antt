-- ===== src/Egress/Guard.antt =====
-- What the guards of agentkit/egress.py let out, in terms of the settings.
use agent_bakery.Prelude.{
  Bool, not, if◌then◌else◌, refl, false, Bool-cases, ap, arith, none, true, ◌&&◌, ◌==◌, ◌||◌, ◌↔◌,
  ◌≢◌, ℕ, ◌≡◌, ◌⊎◌, inl, inr, Option, some, List, [], ◌∷◌, Option-cases,
}
use agent_bakery.Prelude.Chars.{same_text, same_text_iff, Chars}
use agent_bakery.Egress.{
  mutating_verb_blocked, Settings, AllowList, allowed_urls, from_settings, Request, sent,
  egress_blocked, port_of, is_mutating, handle_async_request, guarded_connect, allows, append_pair,
  add_host, is_among, Url, Split, split_hostport, collect,
}

iff_trans : {A B C : Type 0} → A ↔ B → B ↔ C → A ↔ C
iff_trans (f, g) (h, k) = (λ a. h (f a), λ c. g (k c))

or_iff : {A B C D : Type 0} → A ↔ B → C ↔ D → (A ⊎ C) ↔ (B ⊎ D)
or_iff (f, g) (h, k) =
    (elim [ inl a ↦ inl (f a) | inr c ↦ inr (h c) ], elim [ inl b ↦ inl (g b) | inr d ↦ inr (k d) ])

and_iff : {A B C D : Type 0} → A ↔ B → C ↔ D → (A × C) ↔ (B × D)
and_iff (f, g) (h, k) = (λ (a, c). (f a, h c), λ (b, d). (g b, k d))

some_iff : {A : Type 0} (a b : A) → (a ≡ b) ↔ (some a ≡ some b)
some_iff a b = (λ e. ap some e, λ e. cc e)

allows-append :
    (part : Split) (rest : List (Chars × ℕ)) (host : Chars) (port : ℕ)
    → (allows (append_pair part rest) host port ≡ true)
      ↔ ((part ≡ (some host, some port)) ⊎ (allows rest host port ≡ true))
allows-append (none, port') rest host port =
    (λ h. inr h, elim [ inl e ↦ absurd (cc (ap (λ (q : Split). q.0) e)) | inr h ↦ h ])
allows-append (some h, none) rest host port =
    (λ h. inr h, elim [ inl e ↦ absurd (cc (ap (λ (q : Split). q.1) e)) | inr h ↦ h ])
allows-append (some h, some p) rest host port = (
  λ e. elim (Bool-cases (same_text h host && p == port)) [
    | inl same ↦ inl (both (ground (arith, same_text_iff h host)) (ground arith))
    | inr other ↦ inr (rw other at e)
  ],
  elim [
    | inl e ↦ here (cc (ap (λ (q : Split). q.0) e)) (cc (ap (λ (q : Split). q.1) e))
    | inr e ↦ ground arith
  ],
)
  where
    both : h ≡ host → p ≡ port → ◌≡◌ {A = Split} (some h, some p) (some host, some port)
    both a b = cc

    here : h ≡ host → p ≡ port → (same_text h host && p == port) || allows rest host port ≡ true
    here a b = ground (arith, (same_text_iff h host).1 a)

among-add :
    (part : Split) (rest : List Chars) (host : Chars)
    → (is_among host (add_host part rest) ≡ true) ↔ (
        ((host ≢ []) × ((port : Option ℕ) × (part ≡ (some host, port))))
        ⊎ (is_among host rest ≡ true))
among-add (none, port') rest host =
    (λ h. inr h, elim [ inl e ↦ absurd (cc (ap (λ (q : Split). q.0) e.1.1)) | inr h ↦ h ])
among-add (some [], port') rest host =
    (λ h. inr h, elim [ inl e ↦ absurd (e.0 (cc (ap (λ (q : Split). q.0) e.1.1))) | inr h ↦ h ])
among-add (some (c ∷ h), port') rest host = (
  λ e. elim (Bool-cases (same_text host (c ∷ h))) [
    | inl same ↦ inl (filled ((same_text_iff host (c ∷ h)).0 same))
    | inr other ↦ inr (rw other at e)
  ],
  elim [ inl e ↦ here (cc (ap (λ (q : Split). q.0) e.1.1)) | inr e ↦ ground arith ],
)
  where
    filled :
        host ≡ c ∷ h
        → (host ≢ [])
          × ((port : Option ℕ) × ◌≡◌ {A = Split} (some (c ∷ h), port') (some host, port))
    filled a = (λ b. cc, (port', cc))

    here : host ≡ c ∷ h → same_text host (c ∷ h) || is_among host rest ≡ true
    here a = ground (arith, (same_text_iff host (c ∷ h)).1 a)

module _ (urlparse : Chars → Option Url) (int : Chars → Option ℕ) where
  -- One of the texts names this host and this port.
  abbrev pub NamesPair : List Chars → Chars → ℕ → Type 0
  NamesPair [] host port = ⊥
  NamesPair (text ∷ texts) host port =
      (split_hostport urlparse int text ≡ some (some host, some port)) ⊎ NamesPair texts host port

  -- One of the texts names this host, with or without a port.
  abbrev pub NamesHost : List Chars → Chars → Type 0
  NamesHost [] host = ⊥
  NamesHost (text ∷ texts) host =
      ((port : Option ℕ) × (split_hostport urlparse int text ≡ some (some host, port)))
      ⊎ NamesHost texts host

  collect_cases :
      {A : Type 0} (add : Split → List A → List A) (text : Chars) (texts : List Chars)
      (all : List A)
      → collect urlparse int add (text ∷ texts) ≡ some all
      → (part : Split) × (rest : List A) × (split_hostport urlparse int text ≡ some part)
        × (collect urlparse int add texts ≡ some rest)
        × (all ≡ add part rest)
  unfolding collect
  collect_cases add text texts all h = elim (Option-cases (split_hostport urlparse int text)) [
    | inl e ↦ absurd (cc (rw e at h))
    | inr (part, e) ↦ elim (Option-cases (collect urlparse int add texts)) [
      | inl f ↦ absurd (cc (rw (e, f) at h))
      | inr (rest, f) ↦ (part, rest, e, f, cc (rw (e, f) at h))
    ]
  ]

  collect_nothing :
      {A : Type 0} (add : Split → List A → List A) (all : List A)
      → collect urlparse int add [] ≡ some all
      → all ≡ []
  unfolding collect
  collect_nothing add all h = cc

  allows-collect :
      (texts : List Chars) (pairs : List (Chars × ℕ)) (host : Chars) (port : ℕ)
      → collect urlparse int append_pair texts ≡ some pairs
      → (allows pairs host port ≡ true) ↔ NamesPair texts host port
  allows-collect [] pairs host port h =
      rw (collect_nothing append_pair pairs h) (λ e. absurd (cc e), λ e. absurd e)
  allows-collect (text ∷ texts) pairs host port h =
      let (part, rest, e, f, all) = collect_cases append_pair text texts pairs h in
      rw (all, e)
        (iff_trans (allows-append part rest host port)
          (or_iff (some_iff part (some host, some port)) (allows-collect texts rest host port f)))

  among-collect :
      (texts : List Chars) (hosts : List Chars) (host : Chars)
      → collect urlparse int add_host texts ≡ some hosts
      → (is_among host hosts ≡ true) ↔ ((host ≢ []) × NamesHost texts host)
  among-collect [] hosts host h =
      rw (collect_nothing add_host hosts h) (λ e. absurd (cc e), λ e. absurd e.1)
  among-collect (text ∷ texts) hosts host h =
      let (part, rest, e, f, all) = collect_cases add_host text texts hosts h in
      let (out, back) = among-add part rest host in
      let (out', back') = among-collect texts rest host f in
      rw (all, e)
        (
          λ a. elim (out a) [
            | inl (filled, (port, p)) ↦ (filled, inl (port, ap some p))
            | inr b ↦ ((out' b).0, inr (out' b).1)
          ],
          λ (filled, named). elim named [
            | inl (port, p) ↦ back (inl (filled, (port, cc p)))
            | inr n ↦ back (inr (back' (filled, n)))
          ],
        )

  from_settings_cases :
      (s : Settings) (list : AllowList)
      → from_settings urlparse int s ≡ some list
      → (collect urlparse int append_pair (allowed_urls s) ≡ some list.pairs)
        × (collect urlparse int add_host (s.llm_base_url ∷ s.egress_safe_write_hosts)
            ≡ some list.safe_write_hosts)
  unfolding from_settings
  from_settings_cases s list h =
      elim (Option-cases (collect urlparse int append_pair (allowed_urls s))) [
        | inl e ↦ absurd (cc (rw e at h))
        | inr (pairs, e) ↦
            elim (Option-cases
              (collect urlparse int add_host (s.llm_base_url ∷ s.egress_safe_write_hosts))) [
                | inl f ↦ absurd (cc (rw (e, f) at h))
                | inr (hosts, f) ↦
                    let same : list ≡ record { pairs = pairs; safe_write_hosts = hosts } =
                      cc (rw (e, f) at h) in
                    rw same (e, f)
              ]
      ]

  -- The decision on the two lists.
  sent_iff :
      (list : AllowList) (request : Request)
      → (handle_async_request true list request ≡ sent) ↔ (
          (allows list.pairs request.host (port_of request) ≡ true)
          × ((is_mutating request.method ≡ false)
              ⊎ (is_among request.host list.safe_write_hosts ≡ true)))
  unfolding handle_async_request
  sent_iff list request =
      by_cases (allows list.pairs request.host (port_of request)) (is_mutating request.method)
        (is_among request.host list.safe_write_hosts)
    where
      by_cases :
          (a m w : Bool)
          → ((if a then (if m && not w then mutating_verb_blocked else sent) else egress_blocked)
              ≡ sent)
            ↔ ((a ≡ true) × ((m ≡ false) ⊎ (w ≡ true)))
      by_cases true true true = (λ e. (refl, inr refl), λ e. refl)
      by_cases true true false =
          (λ e. absurd (cc e), λ (h, c). elim c [ inl e ↦ cc e | inr e ↦ absurd (cc e) ])
      by_cases true false w = (λ e. (refl, inl refl), λ e. refl)
      by_cases false m w = (λ e. absurd (cc e), λ e. cc e.0)

  opened_iff :
      (s : Settings) (list : AllowList) (host : Chars) (port : ℕ)
      → from_settings urlparse int s ≡ some list
      → s.private_mode ≡ true
      → (guarded_connect urlparse int (some s) none host port ≡ some sent)
        ↔ (allows list.pairs host port ≡ true)
  unfolding guarded_connect
  opened_iff s list host port built private =
      rw (private, built) (by_cases (allows list.pairs host port))
    where
      by_cases : (a : Bool) → (some (if a then sent else egress_blocked) ≡ some sent) ↔ (a ≡ true)
      by_cases true = (λ e. refl, λ e. refl)
      by_cases false = (λ e. absurd (cc e), λ e. cc e)

  -- In private mode, an HTTP request is sent exactly when one of the four configured URLs names its
  -- host and port and, where its method is one of the four mutating ones, the LLM's URL or a
  -- configured safe-write host names its host; and a guarded connection is opened exactly when one of
  -- the four URLs names its host and port.
  pub private_egress_iff :
      (s : Settings) (list : AllowList) (request : Request) (host : Chars) (port : ℕ)
      → from_settings urlparse int s ≡ some list
      → s.private_mode ≡ true
      → ((handle_async_request true list request ≡ sent) ↔ (
          NamesPair (allowed_urls s) request.host (port_of request)
          × ((is_mutating request.method ≡ false)
              ⊎ ((request.host ≢ [])
                  × NamesHost (s.llm_base_url ∷ s.egress_safe_write_hosts) request.host))))
        × ((guarded_connect urlparse int (some s) none host port ≡ some sent)
            ↔ NamesPair (allowed_urls s) host port)
  private_egress_iff s list request host port built private =
      let (pairs, hosts) = from_settings_cases s list built in
      let pair = allows-collect (allowed_urls s) list.pairs in
      let write =
        among-collect (s.llm_base_url ∷ s.egress_safe_write_hosts) list.safe_write_hosts in
      (
        iff_trans (sent_iff list request) (
            and_iff (pair request.host (port_of request) pairs)
              (or_iff (λ e. e, λ e. e) (write request.host hosts))),
        iff_trans (opened_iff s list host port built private) (pair host port pairs),
      )
