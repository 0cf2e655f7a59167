-- ===== src/Prelude/Reversed.antt =====
-- Rows in the reverse of the order of a query.
use mathlib.Core.Path.{◌≡◌, refl, ap}
use mathlib.Core.Logic.{◌⊎◌, inl, inr}
use mathlib.Core.Bool.{Bool, true}
use mathlib.Core.List.{List, [], ◌∷◌, ◌++◌, reverse, reverse-cons, map}
use native.Mathlib.Omega.{arith}
use agent_bakery.Prelude.Lists.{length, length-append}
use agent_bakery.Prelude.Rows.{AllOf, In, IsSorted}

module _ {ℓ} {A : Type ℓ} where
  pub AllOf-append {κ} :
      (P : A → Type κ) (xs ys : List A) → AllOf P xs → AllOf P ys → AllOf P (xs ++ ys)
  AllOf-append P [] ys h k = k
  AllOf-append P (x ∷ xs) ys h k = (h.0, AllOf-append P xs ys h.1 k)

  pub reverse-AllOf {κ} : (P : A → Type κ) (xs : List A) → AllOf P xs → AllOf P (reverse xs)
  reverse-AllOf P [] h = tt
  reverse-AllOf P (x ∷ xs) h =
      rw (reverse-cons x xs)
        (AllOf-append P (reverse xs) (x ∷ []) (reverse-AllOf P xs h.1) (h.0, tt))

  pub length-reverse : (xs : List A) → length (reverse xs) ≡ length xs
  length-reverse [] = refl
  length-reverse (x ∷ xs) =
      rw (reverse-cons x xs) (omega (arith, length-append (reverse xs) (x ∷ []), length-reverse xs))

  IsSorted-append_last :
      (le : A → A → Bool) (xs : List A) (y : A)
      → IsSorted le xs
      → AllOf (λ x. le x y ≡ true) xs
      → IsSorted le (xs ++ y ∷ [])
  IsSorted-append_last le [] y h k = (tt, tt)
  IsSorted-append_last le (x ∷ xs) y h k = (
    AllOf-append (λ z. le x z ≡ true) xs (y ∷ []) h.0 (k.0, tt),
    IsSorted-append_last le xs y h.1 k.1,
  )

  pub reverse-IsSorted :
      (le : A → A → Bool) (xs : List A) → IsSorted le xs → IsSorted (λ x y. le y x) (reverse xs)
  reverse-IsSorted le [] h = tt
  reverse-IsSorted le (x ∷ xs) h = rw (reverse-cons x xs) (
      IsSorted-append_last (λ x y. le y x) (reverse xs) x (reverse-IsSorted le xs h.1)
        (reverse-AllOf (λ y. le x y ≡ true) xs h.0))

module _ {A : Type 0} where
  In-append : (a : A) (xs ys : List A) → In a xs ⊎ In a ys → In a (xs ++ ys)
  In-append a [] ys (inl m) = absurd m
  In-append a [] ys (inr m) = m
  In-append a (x ∷ xs) ys (inl (inl e)) = inl e
  In-append a (x ∷ xs) ys (inl (inr m)) = inr (In-append a xs ys (inl m))
  In-append a (x ∷ xs) ys (inr m) = inr (In-append a xs ys (inr m))

  pub reverse-In : (a : A) (xs : List A) → In a xs → In a (reverse xs)
  reverse-In a [] m = m
  reverse-In a (x ∷ xs) (inl e) =
      rw (reverse-cons x xs) (In-append a (reverse xs) (x ∷ []) (inr (inl e)))
  reverse-In a (x ∷ xs) (inr m) =
      rw (reverse-cons x xs) (In-append a (reverse xs) (x ∷ []) (inl (reverse-In a xs m)))

  pub map-In : {B : Type 0} (f : A → B) (a : A) (xs : List A) → In a xs → In (f a) (map f xs)
  map-In f a [] m = m
  map-In f a (x ∷ xs) (inl e) = inl (ap f e)
  map-In f a (x ∷ xs) (inr m) = inr (map-In f a xs m)
