-- ===== src/Auth/Tokens/Refresh.antt =====
-- Refresh tokens of agentkit/auth.py: who they are good for, and how often.
use agent_bakery.Prelude.{
  ℕ, String, ◌≡◌, ◌⊎◌, refl, ◌||◌, Option, none, some, List, [], ◌∷◌, ltb, str_eq, eq_iff,
  Bool-cases, inl, inr,
}
use agent_bakery.Prelude.Exec.{ok, raised}
use agent_bakery.Prelude.Dict.{Dict, lookup, remove, All, insert-All, remove-All, lookup-All}
use agent_bakery.Auth.Tokens.{
  Jwt, Identity, Entry, Store, AuthError, invalid_refresh_token, mint_token, rotate_tokens, redeem,
  refresh_access, week,
}

-- A login, or a refresh with a token and a secret, at a time.
pub data Use : Type 0 where
  login : Identity → String → String → ℕ → ℕ → ℕ → ℕ → Use
  refresh : String → String → String → ℕ → ℕ → ℕ → Use

abbrev pub no_entries : Store
no_entries = record { entries = []; draws = 0 }

-- Someone logged in with a secret.
abbrev pub HasLogin : Identity → String → List Use → Type 0
HasLogin who secret [] = ⊥
HasLogin who secret (login w s alg access_ttl refresh_ttl wall now ∷ us) =
    ((who ≡ w) × (secret ≡ s)) ⊎ HasLogin who secret us
HasLogin who secret (refresh token s alg access_ttl wall now ∷ us) = HasLogin who secret us

abbrev IsIssued : List Use → Entry → Type 0
IsIssued us entry = HasLogin entry.claims entry.secret us

module _ {Token : Type 0} (jwt : Jwt Token) (random : ℕ → String) where
  -- The latest first, on top of a store.
  unfoldable pub after : List Use → Store → Store
  unfolding rotate_tokens refresh_access
  after [] s = s
  after (login who secret alg access_ttl refresh_ttl wall now ∷ us) s =
      (rotate_tokens jwt random who secret alg access_ttl refresh_ttl wall now (after us s)).1
  after (refresh token secret alg access_ttl wall now ∷ us) s =
      (refresh_access jwt random token secret alg access_ttl wall now (after us s)).1

  -- The two ways that redeeming ends.
  pub redeem_cases :
      (o : Option Entry) (secret alg : String) (access_ttl wall now : ℕ) (s : Store)
      → ((e : AuthError) × (redeem jwt random o secret alg access_ttl wall now s ≡ (raised e, s)))
        ⊎ ((entry : Entry) × (o ≡ some entry)
            × (secret ≡ entry.secret)
            × (redeem jwt random o secret alg access_ttl wall now s
                ≡ rotate_tokens jwt random entry.claims secret alg access_ttl week wall now s))
  unfolding redeem
  redeem_cases none secret alg access_ttl wall now s = inl (invalid_refresh_token, refl)
  redeem_cases (some entry) secret alg access_ttl wall now s =
      elim (Bool-cases (str_eq secret entry.secret)) [
        | inr other ↦ rw other (inl (_, refl))
        | inl same ↦ elim (Bool-cases (ltb entry.expires_at now)) [
          | inl late ↦ rw (same, late) (inl (_, refl))
          | inr early ↦
              elim (Bool-cases (
                str_eq entry.claims.sub ""
                || (str_eq entry.claims.tenant "" || str_eq entry.claims.role ""))) [
                  | inl blank ↦ rw (same, early, blank) (inl (_, refl))
                  | inr full ↦
                      rw (same, early, full)
                        (inr (entry, refl, (eq_iff secret entry.secret).0 same, refl))
                ]
        ]
      ]

  HasLogin-more :
      (entry : Entry) (u : Use) (us : List Use) → IsIssued us entry → IsIssued (u ∷ us) entry
  HasLogin-more entry (login w s alg access_ttl refresh_ttl wall now) us h = inr h
  HasLogin-more entry (refresh token s alg access_ttl wall now) us h = h

  All-more :
      (u : Use) (us : List Use) (d : Dict Entry) → All (IsIssued us) d → All (IsIssued (u ∷ us)) d
  All-more u us [] h = tt
  All-more u us ((k, e) ∷ d) h = (HasLogin-more e u us h.0, All-more u us d h.1)

  redeem-All :
      (us : List Use) (o : Option Entry) (secret alg : String) (access_ttl wall now : ℕ) (s : Store)
      → ((entry : Entry) → o ≡ some entry → IsIssued us entry)
      → All (IsIssued us) s.entries
      → All (IsIssued us) (redeem jwt random o secret alg access_ttl wall now s).1.entries
  unfolding rotate_tokens
  redeem-All us o secret alg access_ttl wall now s issued h =
      elim (redeem_cases o secret alg access_ttl wall now s) [
        | inl (e, failed) ↦ rw failed h
        | inr (entry, found, same, redeemed) ↦
            rw redeemed (insert-All (IsIssued us) _ _ _ (rw same (issued entry found)) h)
      ]

  after-Issued : (us : List Use) → All (IsIssued us) (after us no_entries).entries
  unfolding after rotate_tokens refresh_access
  after-Issued [] = tt
  after-Issued (login who secret alg access_ttl refresh_ttl wall now ∷ us) =
      insert-All (IsIssued (login who secret alg access_ttl refresh_ttl wall now ∷ us)) _ _ _
        (inl (refl, refl))
        (All-more (login who secret alg access_ttl refresh_ttl wall now) us _ (after-Issued us))
  after-Issued (refresh token secret alg access_ttl wall now ∷ us) =
      redeem-All us (lookup token (after us no_entries).entries) secret alg access_ttl wall now _
        (λ entry found. lookup-All (IsIssued us) token entry _ found (after-Issued us))
        (remove-All (IsIssued us) token _ (after-Issued us))

  -- Whatever logins and refreshes came before, a refresh that succeeds hands out the access token of
  -- someone who logged in, with the claims of that login and signed with the secret of that login: a
  -- refresh token grants nothing else, and with another secret it grants nothing.
  pub refreshed_was_login :
      (us : List Use) (token secret alg : String) (access_ttl wall now : ℕ) (access : Token)
      (next : String)
      → (refresh_access jwt random token secret alg access_ttl wall now (after us no_entries)).0
        ≡ ok (access, next)
      → (who : Identity) × HasLogin who secret us
        × (access ≡ mint_token jwt who secret alg access_ttl wall)
  unfolding refresh_access rotate_tokens
  refreshed_was_login us token secret alg access_ttl wall now access next h =
      let s = after us no_entries in
      let popped : Store = record s { entries = remove token s.entries } in
      elim (redeem_cases (lookup token s.entries) secret alg access_ttl wall now popped) [
        | inl (e, failed) ↦ absurd (cc (failed, h))
        | inr (entry, found, same, redeemed) ↦ (
          entry.claims,
          rw same (lookup-All (IsIssued us) token entry s.entries found (after-Issued us)),
          cc (redeemed, h),
        )
      ]
