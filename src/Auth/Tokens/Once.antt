-- ===== src/Auth/Tokens/Once.antt =====
-- A refresh token of agentkit/auth.py is good once.
use agent_bakery.Prelude.{
  ℕ, ◌≤◌, String, ◌≡◌, ◌≢◌, refl, Option, none, List, [], ◌∷◌, arith, eq_iff, inl, inr,
}
use agent_bakery.Prelude.Exec.{raised}
use agent_bakery.Prelude.Dict.{
  lookup, lookup-insert, IsDict, insert-IsDict, remove-IsDict, lookup-remove,
}
use agent_bakery.Auth.Tokens.{
  Jwt, Identity, Entry, Store, invalid_refresh_token, rotate_tokens, redeem, refresh_access,
}
use agent_bakery.Auth.Tokens.Refresh.{Use, login, refresh, no_entries, after, redeem_cases}

module _ {Token : Type 0} (jwt : Jwt Token) (random : ℕ → String) where
  -- The random source never again yields a token.
  abbrev pub IsUndrawn : String → Store → Type 0
  IsUndrawn r s = (n : ℕ) → s.draws ≤ n → random n ≢ r

  abbrev IsSpent : String → Store → Type 0
  IsSpent r s = (lookup r s.entries ≡ none) × IsDict s.entries × IsUndrawn r s

  rotate-IsSpent :
      (r : String) (who : Identity) (secret alg : String) (access_ttl refresh_ttl wall now : ℕ)
      (s : Store)
      → IsSpent r s
      → IsSpent r (rotate_tokens jwt random who secret alg access_ttl refresh_ttl wall now s).1
  unfolding rotate_tokens
  rotate-IsSpent r who secret alg access_ttl refresh_ttl wall now s (gone, dict, undrawn) = (
    rw lookup-insert
        (ground (arith, gone, undrawn s.draws (omega arith), eq_iff (random s.draws) r)),
    insert-IsDict _ _ _ dict,
    λ n h. undrawn n (omega (arith, h)),
  )

  redeem-IsSpent :
      (r : String) (o : Option Entry) (secret alg : String) (access_ttl wall now : ℕ) (s : Store)
      → IsSpent r s
      → IsSpent r (redeem jwt random o secret alg access_ttl wall now s).1
  redeem-IsSpent r o secret alg access_ttl wall now s h =
      elim (redeem_cases jwt random o secret alg access_ttl wall now s) [
        | inl (e, failed) ↦ rw failed h
        | inr (entry, found, same, redeemed) ↦ rw redeemed (rotate-IsSpent r _ _ _ _ _ _ _ s h)
      ]

  refresh-IsSpent :
      (r token secret alg : String) (access_ttl wall now : ℕ) (s : Store)
      → IsSpent r s
      → IsSpent r (refresh_access jwt random token secret alg access_ttl wall now s).1
  unfolding refresh_access
  refresh-IsSpent r token secret alg access_ttl wall now s (gone, dict, undrawn) =
      redeem-IsSpent r _ secret alg access_ttl wall now _ (
        rw (lookup-remove token r s.entries dict) (ground (arith, gone)),
        remove-IsDict token s.entries dict,
        undrawn,
      )

  spends :
      (r secret alg : String) (access_ttl wall now : ℕ) (s : Store)
      → IsDict s.entries
      → IsUndrawn r s
      → IsSpent r (refresh_access jwt random r secret alg access_ttl wall now s).1
  unfolding refresh_access
  spends r secret alg access_ttl wall now s dict undrawn =
      redeem-IsSpent r _ secret alg access_ttl wall now _ (
        rw (lookup-remove r r s.entries dict) (ground (arith, eq_iff r r)),
        remove-IsDict r s.entries dict,
        undrawn,
      )

  after-IsSpent :
      (r : String) (us : List Use) (s : Store) → IsSpent r s → IsSpent r (after jwt random us s)
  unfolding after
  after-IsSpent r [] s h = h
  after-IsSpent r (login who secret alg access_ttl refresh_ttl wall now ∷ us) s h =
      rotate-IsSpent r who secret alg access_ttl refresh_ttl wall now _ (after-IsSpent r us s h)
  after-IsSpent r (refresh token secret alg access_ttl wall now ∷ us) s h =
      refresh-IsSpent r token secret alg access_ttl wall now _ (after-IsSpent r us s h)

  redeem-IsDict :
      (o : Option Entry) (secret alg : String) (access_ttl wall now : ℕ) (s : Store)
      → IsDict s.entries
      → IsDict (redeem jwt random o secret alg access_ttl wall now s).1.entries
  unfolding rotate_tokens
  redeem-IsDict o secret alg access_ttl wall now s h =
      elim (redeem_cases jwt random o secret alg access_ttl wall now s) [
        | inl (e, failed) ↦ rw failed h
        | inr (entry, found, same, redeemed) ↦ rw redeemed (insert-IsDict _ _ _ h)
      ]

  after-IsDict : (us : List Use) → IsDict (after jwt random us no_entries).entries
  unfolding after rotate_tokens refresh_access
  after-IsDict [] = tt
  after-IsDict (login who secret alg access_ttl refresh_ttl wall now ∷ us) =
      insert-IsDict _ _ _ (after-IsDict us)
  after-IsDict (refresh token secret alg access_ttl wall now ∷ us) =
      redeem-IsDict (lookup token (after jwt random us no_entries).entries) secret alg access_ttl
        wall now _ (remove-IsDict token _ (after-IsDict us))

  -- A refresh token is good once: after one attempt to use it, with whatever outcome, and any logins
  -- and refreshes since, it is refused as invalid, whatever secret comes with it, provided that the
  -- random source does not yield the same token again.
  pub refresh_once :
      (us later : List Use) (r : String) (secret alg : String) (access_ttl wall now : ℕ)
      (secret' alg' : String) (access_ttl' wall' now' : ℕ)
      → IsUndrawn r (after jwt random us no_entries)
      → let s =
          (refresh_access jwt random r secret alg access_ttl wall now
            (after jwt random us no_entries)).1 in
        (refresh_access jwt random r secret' alg' access_ttl' wall' now'
          (after jwt random later s)).0
        ≡ raised invalid_refresh_token
  unfolding refresh_access redeem
  refresh_once us later r secret alg access_ttl wall now secret' alg' access_ttl' wall' now'
        undrawn =
      rw
        (after-IsSpent r later _
          (spends r secret alg access_ttl wall now _ (after-IsDict us) undrawn)).0
        refl
