-- ===== src/Prelude/Dict.antt =====
-- A Python dict, or a table with one row per key: an association list in insertion order, keyed by
-- text.
use Prim.Native.String.{String}
use mathlib.Core.Path.{◌≡◌, refl, subst}
use mathlib.Core.Option.{Option, none, some}
use mathlib.Core.List.{List, [], ◌∷◌}
use native.Mathlib.Omega.{arith}
use text.Mathlib.Text.{◌==◌ as str_eq}
use text.Mathlib.TextEquality.{eq_iff}
use agent_bakery.Prelude.Tests.{if◌then◌else◌, Bool-cases}
use mathlib.Core.Logic.{inl, inr}
use mathlib.Core.Bool.{false}

abbrev pub Dict {ℓ} : Type ℓ → Type ℓ
Dict V = List (String × V)

module _ {ℓ} {V : Type ℓ} where
  -- `d.get(k)`
  abbrev pub lookup : String → Dict V → Option V
  lookup k [] = none
  lookup k ((j, v) ∷ d) = if str_eq j k then some v else lookup k d

  -- `d[k] = v`
  abbrev pub insert : String → V → Dict V → Dict V
  insert k v [] = (k, v) ∷ []
  insert k v ((j, w) ∷ d) = if str_eq j k then (j, v) ∷ d else (j, w) ∷ insert k v d

  -- `d.pop(k, None)`, what is left of `d`
  abbrev pub remove : String → Dict V → Dict V
  remove k [] = []
  remove k ((j, v) ∷ d) = if str_eq j k then d else (j, v) ∷ remove k d

  pub lookup-insert :
      (k j : String) (v : V) (d : Dict V)
      → lookup j (insert k v d) ≡ (if str_eq k j then some v else lookup j d)
  lookup-insert k j v [] = refl
  lookup-insert k j v ((i, w) ∷ d) =
      ground (arith, eq_iff k j, eq_iff i k, eq_iff i j, lookup-insert k j v d)

  -- No key is listed twice.
  abbrev pub IsDict : Dict V → Type ℓ
  IsDict [] = Unit
  IsDict ((k, v) ∷ d) = (lookup k d ≡ none) × IsDict d

  insert-none :
      (k j : String) (v : V) (d : Dict V)
      → str_eq k j ≡ false
      → lookup j d ≡ none
      → lookup j (insert k v d) ≡ none
  insert-none k j v d apart h = rw (lookup-insert k j v d, apart) h

  pub insert-IsDict : (k : String) (v : V) (d : Dict V) → IsDict d → IsDict (insert k v d)
  insert-IsDict k v [] h = (refl, tt)
  insert-IsDict k v ((j, w) ∷ d) h = elim (Bool-cases (str_eq j k)) [
    | inl same ↦ rw same h
    | inr other ↦
        rw other (
          insert-none k j v d (ground (arith, eq_iff j k, eq_iff k j)) h.0,
          insert-IsDict k v d h.1,
        )
  ]

  pub lookup-remove :
      (k j : String) (d : Dict V)
      → IsDict d
      → lookup j (remove k d) ≡ (if str_eq k j then none else lookup j d)
  lookup-remove k j [] h = ground arith
  lookup-remove k j ((i, w) ∷ d) h =
      ground (arith, eq_iff k j, eq_iff i k, eq_iff i j, lookup-remove k j d h.1, h.0)

  pub remove-IsDict : (k : String) (d : Dict V) → IsDict d → IsDict (remove k d)
  remove-IsDict k [] h = tt
  remove-IsDict k ((j, w) ∷ d) h = elim (Bool-cases (str_eq j k)) [
    | inl same ↦ rw same h.1
    | inr other ↦
        rw other (rw (lookup-remove k j d h.1) (ground (arith, h.0)), remove-IsDict k d h.1)
  ]

-- A property of every value.
module _ {ℓ κ} {V : Type ℓ} (P : V → Type κ) where
  abbrev pub All : Dict V → Type κ
  All [] = Unit
  All ((k, v) ∷ d) = P v × All d

  pub insert-All : (k : String) (v : V) (d : Dict V) → P v → All d → All (insert k v d)
  insert-All k v [] p h = (p, tt)
  insert-All k v ((j, w) ∷ d) p h = elim (Bool-cases (str_eq j k)) [
    | inl same ↦ rw same (p, h.1)
    | inr other ↦ rw other (h.0, insert-All k v d p h.1)
  ]

  pub remove-All : (k : String) (d : Dict V) → All d → All (remove k d)
  remove-All k [] h = tt
  remove-All k ((j, w) ∷ d) h = elim (Bool-cases (str_eq j k)) [
    | inl same ↦ rw same h.1
    | inr other ↦ rw other (h.0, remove-All k d h.1)
  ]

  pub lookup-All : (k : String) (v : V) (d : Dict V) → lookup k d ≡ some v → All d → P v
  lookup-All k v [] e h = cc
  lookup-All k v ((j, w) ∷ d) e h = elim (Bool-cases (str_eq j k)) [
    | inl same ↦ let value : w ≡ v = cc (rw same at e) in subst P value h.0
    | inr other ↦ lookup-All k v d (rw other at e) h.1
  ]
