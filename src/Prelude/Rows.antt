-- ===== src/Prelude/Rows.antt =====
-- Rows as a query returns them: selected by a test, in an order, at most so many of them.
use mathlib.Core.Path.{◌≡◌, refl, subst}
use mathlib.Core.Logic.{◌⊎◌, inl, inr}
use mathlib.Core.Bool.{Bool, true, false}
use mathlib.Core.List.{List, [], ◌∷◌}
use native.Mathlib.Omega.{arith}
use Prim.Native.Nat.{ℕ, zero, suc, ◌+◌}
use agent_bakery.Prelude.Tests.{if◌then◌else◌, Bool-cases}
use agent_bakery.Prelude.Lists.{length, take}

module _ {ℓ} {A : Type ℓ} where
  -- `WHERE`
  abbrev pub select : (A → Bool) → List A → List A
  select test [] = []
  select test (x ∷ xs) = if test x then x ∷ select test xs else select test xs

  abbrev pub put : (A → A → Bool) → A → List A → List A
  put le x [] = x ∷ []
  put le x (y ∷ ys) = if le x y then x ∷ y ∷ ys else y ∷ put le x ys

  -- `ORDER BY`, and `sorted`: stable, by a test whether one may stand before the other.
  unfoldable pub sort_by : (A → A → Bool) → List A → List A
  sort_by le [] = []
  sort_by le (x ∷ xs) = put le x (sort_by le xs)

  abbrev pub AllOf {κ} : (A → Type κ) → List A → Type κ
  AllOf P [] = Unit
  AllOf P (x ∷ xs) = P x × AllOf P xs

  abbrev pub IsSorted : (A → A → Bool) → List A → Type 0
  IsSorted le [] = Unit
  IsSorted le (x ∷ xs) = AllOf (λ y. le x y ≡ true) xs × IsSorted le xs

  abbrev pub sum_of : (A → ℕ) → List A → ℕ
  sum_of f [] = 0
  sum_of f (x ∷ xs) = f x + sum_of f xs

module _ {A : Type 0} where
  -- `a in xs`
  abbrev pub In : A → List A → Type 0
  In x [] = ⊥
  In x (y ∷ ys) = (y ≡ x) ⊎ In x ys

-- What an order of a query is: it compares any two rows, and goes on from row to row.
pub record IsOrder {ℓ} {A : Type ℓ} (le : A → A → Bool) : Type ℓ where
  pub total : (x y : A) → le x y ≡ false → le y x ≡ true
  pub trans : (x y z : A) → le x y ≡ true → le y z ≡ true → le x z ≡ true

module _ {ℓ} {A : Type ℓ} where
  pub put-AllOf {κ} :
      (P : A → Type κ) (le : A → A → Bool) (x : A) (ys : List A)
      → P x
      → AllOf P ys
      → AllOf P (put le x ys)
  put-AllOf P le x [] p h = (p, tt)
  put-AllOf P le x (y ∷ ys) p h = elim (Bool-cases (le x y)) [
    | inl first ↦ rw first (p, h)
    | inr later ↦ rw later (h.0, put-AllOf P le x ys p h.1)
  ]

  pub sort_by-AllOf {κ} :
      (P : A → Type κ) (le : A → A → Bool) (xs : List A) → AllOf P xs → AllOf P (sort_by le xs)
  unfolding sort_by
  sort_by-AllOf P le [] h = tt
  sort_by-AllOf P le (x ∷ xs) h = put-AllOf P le x (sort_by le xs) h.0 (sort_by-AllOf P le xs h.1)

  pub AllOf-map {κ ι} :
      (P : A → Type κ) (Q : A → Type ι) (xs : List A)
      → ((x : A) → P x → Q x)
      → AllOf P xs
      → AllOf Q xs
  AllOf-map P Q [] f h = tt
  AllOf-map P Q (x ∷ xs) f h = (f x h.0, AllOf-map P Q xs f h.1)

  put-IsSorted :
      (le : A → A → Bool)
      → IsOrder le
      → (x : A) (ys : List A) → IsSorted le ys
      → IsSorted le (put le x ys)
  put-IsSorted le o x [] h = (tt, tt)
  put-IsSorted le o x (y ∷ ys) h = elim (Bool-cases (le x y)) [
    | inl first ↦ rw first ((first, AllOf-map _ _ ys (λ z lt. o.trans x y z first lt) h.0), h)
    | inr later ↦
        rw later (
          put-AllOf (λ z. le y z ≡ true) le x ys (o.total x y later) h.0,
          put-IsSorted le o x ys h.1,
        )
  ]

  pub sort_by-IsSorted :
      (le : A → A → Bool) → IsOrder le → (xs : List A) → IsSorted le (sort_by le xs)
  unfolding sort_by
  sort_by-IsSorted le o [] = tt
  sort_by-IsSorted le o (x ∷ xs) = put-IsSorted le o x (sort_by le xs) (sort_by-IsSorted le o xs)

  put-sum_of :
      (f : A → ℕ) (le : A → A → Bool) (x : A) (ys : List A)
      → sum_of f (put le x ys) ≡ f x + sum_of f ys
  put-sum_of f le x [] = refl
  put-sum_of f le x (y ∷ ys) = ground (arith, put-sum_of f le x ys)

  pub sort_by-sum_of :
      (f : A → ℕ) (le : A → A → Bool) (xs : List A) → sum_of f (sort_by le xs) ≡ sum_of f xs
  unfolding sort_by
  sort_by-sum_of f le [] = refl
  sort_by-sum_of f le (x ∷ xs) =
      omega (arith, put-sum_of f le x (sort_by le xs), sort_by-sum_of f le xs)

  pub select-AllOf : (test : A → Bool) (xs : List A) → AllOf (λ x. test x ≡ true) (select test xs)
  select-AllOf test [] = tt
  select-AllOf test (x ∷ xs) = elim (Bool-cases (test x)) [
    | inl kept ↦ rw kept (kept, select-AllOf test xs)
    | inr left ↦ rw left (select-AllOf test xs)
  ]

  pub take-AllOf {κ} : (P : A → Type κ) (n : ℕ) (xs : List A) → AllOf P xs → AllOf P (take n xs)
  take-AllOf P zero xs h = tt
  take-AllOf P (suc n) [] h = tt
  take-AllOf P (suc n) (x ∷ xs) h = (h.0, take-AllOf P n xs h.1)

  pub take-IsSorted :
      (le : A → A → Bool) (n : ℕ) (xs : List A) → IsSorted le xs → IsSorted le (take n xs)
  take-IsSorted le zero xs h = tt
  take-IsSorted le (suc n) [] h = tt
  take-IsSorted le (suc n) (x ∷ xs) h =
      (take-AllOf (λ y. le x y ≡ true) n xs h.0, take-IsSorted le n xs h.1)

module _ {A : Type 0} where
  put-In : (le : A → A → Bool) (a x : A) (ys : List A) → (x ≡ a) ⊎ In a ys → In a (put le x ys)
  put-In le a x [] h = h
  put-In le a x (y ∷ ys) h = elim (Bool-cases (le x y)) [
    | inl first ↦ rw first h
    | inr later ↦ rw later (elim h [
      | inl e ↦ inr (put-In le a x ys (inl e))
      | inr (inl e) ↦ inl e
      | inr (inr m) ↦ inr (put-In le a x ys (inr m))
    ])
  ]

  pub sort_by-In : (le : A → A → Bool) (a : A) (xs : List A) → In a xs → In a (sort_by le xs)
  unfolding sort_by
  sort_by-In le a [] m = m
  sort_by-In le a (x ∷ xs) m =
      put-In le a x (sort_by le xs) (elim m [ inl e ↦ inl e | inr r ↦ inr (sort_by-In le a xs r) ])

  pub select-In :
      (test : A → Bool) (a : A) (xs : List A) → test a ≡ true → In a xs → In a (select test xs)
  select-In test a [] t m = m
  select-In test a (x ∷ xs) t (inl e) = rw (e, t) (inl refl)
  select-In test a (x ∷ xs) t (inr m) = elim (Bool-cases (test x)) [
    | inl kept ↦ rw kept (inr (select-In test a xs t m))
    | inr left ↦ rw left (select-In test a xs t m)
  ]

  pub In-AllOf {κ} : (P : A → Type κ) (a : A) (xs : List A) → In a xs → AllOf P xs → P a
  In-AllOf P a [] m h = absurd m
  In-AllOf P a (x ∷ xs) (inl e) h = subst P e h.0
  In-AllOf P a (x ∷ xs) (inr m) h = In-AllOf P a xs m h.1

  -- Of sorted rows, one that a limit cuts off comes after every row that is returned, and the limit is
  -- reached.
  pub take-first :
      (le : A → A → Bool) (n : ℕ) (a : A) (xs : List A)
      → IsSorted le xs
      → In a xs
      → In a (take n xs) ⊎ (length (take n xs) ≡ n) × AllOf (λ x. le x a ≡ true) (take n xs)
  take-first le zero a xs s m = inr (refl, tt)
  take-first le (suc n) a [] s m = absurd m
  take-first le (suc n) a (x ∷ xs) s (inl e) = inl (inl e)
  take-first le (suc n) a (x ∷ xs) s (inr m) = elim (take-first le n a xs s.1 m) [
    | inl r ↦ inl (inr r)
    | inr (full, before) ↦ inr (omega arith, (In-AllOf (λ y. le x y ≡ true) a xs m s.0, before))
  ]

  -- What is selected is among the rows, and passes the test.
  pub select-Selected :
      (test : A → Bool) (xs : List A) → AllOf (λ x. In x xs × (test x ≡ true)) (select test xs)
  select-Selected test [] = tt
  select-Selected test (x ∷ xs) =
      let rest =
        AllOf-map (λ y. In y xs × (test y ≡ true)) (λ y. In y (x ∷ xs) × (test y ≡ true))
          (select test xs) (λ y h. (inr h.0, h.1)) (select-Selected test xs) in
      elim (Bool-cases (test x)) [
        | inl kept ↦ rw kept ((inl refl, kept), rest)
        | inr left ↦ rw left rest
      ]
