-- ===== src/Prelude/Groups.antt =====
-- Amounts by key: a dict that is filled by `d[k] = d.get(k, 0) + v`, or `sum(…) … GROUP BY`.
use agent_bakery.Prelude.Tests.{if◌then◌else◌, Bool-cases, ltb, ◌==◌}
use agent_bakery.Prelude.Rows.{sum_of, IsOrder}
use agent_bakery.Prelude.Chars.{Chars}
use mathlib.Core.Path.{◌≡◌, refl}
use mathlib.Core.Logic.{◌↔◌, inl, inr}
use mathlib.Core.Bool.{Bool, true, false, ◌&&◌, ◌||◌}
use mathlib.Core.List.{List, [], ◌∷◌}
use native.Mathlib.Omega.{arith}
use Prim.Native.Nat.{ℕ, ◌+◌}

abbrev pub value_of : {A : Type 0} → A × ℕ → ℕ
value_of (k, v) = v

module _ {A : Type 0} (same : A → A → Bool) where
  unfoldable pub add_to : A → ℕ → List (A × ℕ) → List (A × ℕ)
  add_to k v [] = (k, v) ∷ []
  add_to k v ((j, w) ∷ g) = if same j k then (j, w + v) ∷ g else (j, w) ∷ add_to k v g

  -- `d.get(k, 0)`
  abbrev pub amount_of : A → List (A × ℕ) → ℕ
  amount_of k [] = 0
  amount_of k ((j, w) ∷ g) = if same j k then w else amount_of k g

  pub sum_of-add_to :
      (k : A) (v : ℕ) (g : List (A × ℕ)) → sum_of value_of (add_to k v g) ≡ sum_of value_of g + v
  unfolding add_to
  sum_of-add_to k v [] = omega arith
  sum_of-add_to k v ((j, w) ∷ g) = elim (Bool-cases (same j k)) [
    | inl e ↦ rw e (omega arith)
    | inr e ↦ rw e (omega (arith, sum_of-add_to k v g))
  ]

  pub amount_of-add_to :
      ((a b : A) → (same a b ≡ true) ↔ (a ≡ b))
      → (k j : A) (v : ℕ) (g : List (A × ℕ))
      → amount_of j (add_to k v g) ≡ amount_of j g + (if same k j then v else 0)
  unfolding add_to
  amount_of-add_to eq k j v [] = ground arith
  amount_of-add_to eq k j v ((i, w) ∷ g) =
      ground (arith, eq i k, eq k j, eq i j, amount_of-add_to eq k j v g)

-- `<=` on texts, by code points.
abbrev pub text_le : Chars → Chars → Bool
text_le [] t = true
text_le (c ∷ s) [] = false
text_le (c ∷ s) (d ∷ t) = ltb c d || c == d && text_le s t

text_le_total : (s t : Chars) → text_le s t ≡ false → text_le t s ≡ true
text_le_total [] t h = cc
text_le_total (c ∷ s) [] h = refl
text_le_total (c ∷ s) (d ∷ t) h = ground (arith, text_le_total s t)

text_le_trans : (s t u : Chars) → text_le s t ≡ true → text_le t u ≡ true → text_le s u ≡ true
text_le_trans [] t u h k = refl
text_le_trans (c ∷ s) [] u h k = cc
text_le_trans (c ∷ s) (d ∷ t) [] h k = k
text_le_trans (c ∷ s) (d ∷ t) (e ∷ u) h k = ground (arith, text_le_trans s t u)

pub text_le-IsOrder : IsOrder text_le
text_le-IsOrder = record { total = text_le_total; trans = text_le_trans }
