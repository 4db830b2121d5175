-- ===== src/Prelude/Dict.antt =====
-- Go's string-keyed maps as association lists: at most one entry of a key counts, the first.
use Prim.Native.String.{String}
use mathlib.Core.Path.{◌≡◌, refl}
use mathlib.Core.Bool.{Bool, false}
use mathlib.Core.Option.{Option, none, some}
use mathlib.Core.List.{List, [], ◌∷◌}
use native.Mathlib.Omega.{arith}
use text.Mathlib.Text.{◌==◌}
use text.Mathlib.TextEquality.{eq_iff}
use text.Mathlib.TextPositions.{eq_refl}
use keymaster.Prelude.Tests.{if◌then◌else◌}

abbrev pub Dict {ℓ} : Type ℓ → Type ℓ
Dict V = List (String × V)

module _ {ℓ} {V : Type ℓ} where
  -- `v, ok := m[k]`
  unfoldable pub lookup : String → Dict V → Option V
  lookup key [] = none
  lookup key ((other, v) ∷ rest) = if other == key then some v else lookup key rest

  -- `m[k] = v`
  unfoldable pub insert : String → V → Dict V → Dict V
  insert key v [] = (key, v) ∷ []
  insert key v ((other, w) ∷ rest) =
      if other == key then (key, v) ∷ rest else (other, w) ∷ insert key v rest

  -- `delete(m, k)`
  unfoldable pub remove : String → Dict V → Dict V
  remove key [] = []
  remove key ((other, v) ∷ rest) =
      let rest' = remove key rest in if other == key then rest' else (other, v) ∷ rest'

  -- `for k, v := range m { if p(v) { delete(m, k) } }`
  unfoldable pub delete_if : (V → Bool) → Dict V → Dict V
  delete_if p [] = []
  delete_if p ((other, v) ∷ rest) = if p v then delete_if p rest else (other, v) ∷ delete_if p rest

  pub lookup-insert :
      (key other : String) (v : V) (rest : Dict V)
      → lookup other (insert key v rest) ≡ (if key == other then some v else lookup other rest)
  unfolding lookup insert
  lookup-insert key other v [] = refl
  lookup-insert key other v ((first, w) ∷ rest) = ground (
    arith,
    eq_iff key other,
    eq_iff first key,
    eq_iff first other,
    lookup-insert key other v rest,
  )

  pub lookup-insert_self :
      (key : String) (v : V) (rest : Dict V) → lookup key (insert key v rest) ≡ some v
  lookup-insert_self key v rest = simp (lookup-insert, eq_refl)

  pub lookup-insert_ne :
      (key other : String) (v : V) (rest : Dict V)
      → (key == other) ≡ false
      → lookup other (insert key v rest) ≡ lookup other rest
  lookup-insert_ne key other v rest h = simp (lookup-insert, h)

  pub lookup-remove :
      (key other : String) (rest : Dict V)
      → lookup other (remove key rest) ≡ (if key == other then none else lookup other rest)
  unfolding lookup remove
  lookup-remove key other [] = ground arith
  lookup-remove key other ((first, w) ∷ rest) =
      ground (
        arith,
        eq_iff key other,
        eq_iff first key,
        eq_iff first other,
        lookup-remove key other rest,
      )

  -- the keys of a table
  abbrev pub keys : Dict V → List String
  keys [] = []
  keys ((key, v) ∷ rest) = key ∷ keys rest
