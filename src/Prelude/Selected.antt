-- ===== src/Prelude/Selected.antt =====
-- A selection out of sorted rows, and the rows after a cursor.
use mathlib.Core.Path.{◌≡◌, refl, ap, sym, ◌∙◌}
use mathlib.Core.Logic.{inl, inr}
use mathlib.Core.Bool.{Bool, true, false, ◌&&◌}
use mathlib.Core.List.{List, [], ◌∷◌}
use native.Mathlib.Omega.{arith}
use agent_bakery.Prelude.Tests.{if◌then◌else◌, Bool-cases}
use agent_bakery.Prelude.Rows.{
  AllOf, AllOf-map, IsSorted, IsOrder, select, put, sort_by, sort_by-IsSorted,
}

module _ {ℓ} {A : Type ℓ} where
  -- A row that may stand before all others is put before them.
  put_first :
      (le : A → A → Bool) (x : A) (ys : List A)
      → AllOf (λ y. le x y ≡ true) ys
      → put le x ys ≡ x ∷ ys
  put_first le x [] h = refl
  put_first le x (y ∷ ys) h = rw (h.0)

  select-AllOf_kept {κ} :
      (P : A → Type κ) (test : A → Bool) (ys : List A) → AllOf P ys → AllOf P (select test ys)
  select-AllOf_kept P test [] h = tt
  select-AllOf_kept P test (y ∷ ys) h = elim (Bool-cases (test y)) [
    | inl e ↦ rw e (h.0, select-AllOf_kept P test ys h.1)
    | inr e ↦ rw e (select-AllOf_kept P test ys h.1)
  ]

  select-put :
      (le : A → A → Bool)
      → IsOrder le
      → (test : A → Bool) (x : A) (ys : List A) → IsSorted le ys
      → select test (put le x ys) ≡ (if test x then put le x (select test ys) else select test ys)
  select-put le o test x [] s = refl
  select-put le o test x (y ∷ ys) s = elim (Bool-cases (le x y)) [
    | inl first ↦
        let front : put le x (select test (y ∷ ys)) ≡ x ∷ select test (y ∷ ys) = put_first le x _ (
          select-AllOf_kept (λ z. le x z ≡ true) test (y ∷ ys)
            (first, AllOf-map _ _ ys (λ z lt. o.trans x y z first lt) s.0)) in
        rw first (ap (λ l. if test x then l else select test (y ∷ ys)) (sym front))
    | inr later ↦ elim (Bool-cases (test y)) [
      | inl kept ↦ rw (later, kept) (rw later (ground (arith, select-put le o test x ys s.1)))
      | inr left ↦ rw (later, left) (select-put le o test x ys s.1)
    ]
  ]

  -- Selecting commutes with sorting.
  pub select-sort_by :
      (le : A → A → Bool)
      → IsOrder le
      → (test : A → Bool) (xs : List A) → select test (sort_by le xs) ≡ sort_by le (select test xs)
  unfolding sort_by
  select-sort_by le o test [] = refl
  select-sort_by le o test (x ∷ xs) = elim (Bool-cases (test x)) [
    | inl kept ↦
        select-put le o test x (sort_by le xs) (sort_by-IsSorted le o xs)
        ∙ rw kept (ap (put le x) (select-sort_by le o test xs))
    | inr left ↦
        select-put le o test x (sort_by le xs) (sort_by-IsSorted le o xs)
        ∙ rw left (select-sort_by le o test xs)
  ]

  pub select-and :
      (p q : A → Bool) (xs : List A) → select (λ x. p x && q x) xs ≡ select q (select p xs)
  select-and p q [] = refl
  select-and p q (x ∷ xs) = elim (Bool-cases (p x)) [
    | inl kept ↦ rw kept (ap (λ l. if q x then x ∷ l else l) (select-and p q xs))
    | inr left ↦ rw left (select-and p q xs)
  ]

  pub select_all :
      (test : A → Bool) (xs : List A) → AllOf (λ x. test x ≡ true) xs → select test xs ≡ xs
  select_all test [] h = refl
  select_all test (x ∷ xs) h = rw h.0 (ap (◌∷◌ x) (select_all test xs h.1))

  pub select_none :
      (test : A → Bool) (xs : List A) → AllOf (λ x. test x ≡ false) xs → select test xs ≡ []
  select_none test [] h = refl
  select_none test (x ∷ xs) h = rw h.0 (select_none test xs h.1)
