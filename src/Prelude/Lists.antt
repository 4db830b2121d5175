-- ===== src/Prelude/Lists.antt =====
-- Lists measured by native numbers, Boolean searches in them, and predicates on their members.
use Prim.Native.Nat.{ℕ, zero, suc, ◌+◌, ◌-◌}
use Prim.Native.String.{String}
use mathlib.Core.Path.{◌≡◌, refl, sym, ap, ◌∙◌}
use mathlib.Core.Bool.{Bool, true, false, ◌||◌}
use mathlib.Core.List.{List, [], ◌∷◌, ◌++◌, Memᴰ}
use native.Mathlib.Omega.{arith}
use text.Mathlib.Text.{◌==◌ as str_eq}
use text.Mathlib.TextEquality.{eq_iff}

module _ {ℓ} {A : Type ℓ} where
  abbrev pub length : List A → ℕ
  length [] = 0
  length (x ∷ xs) = suc (length xs)

  pub length-append : (xs ys : List A) → length (xs ++ ys) ≡ length xs + length ys
  length-append [] ys = omega arith
  length-append (x ∷ xs) ys = omega (arith, length-append xs ys)

  abbrev pub drop : ℕ → List A → List A
  drop zero xs = xs
  drop (suc n) [] = []
  drop (suc n) (x ∷ xs) = drop n xs

  pub length-drop : (n : ℕ) (xs : List A) → length (drop n xs) ≡ length xs - n
  length-drop zero xs = omega arith
  length-drop (suc n) [] = omega arith
  length-drop (suc n) (x ∷ xs) = omega (arith, length-drop n xs)

  abbrev pub replicate : ℕ → A → List A
  replicate zero a = []
  replicate (suc n) a = a ∷ replicate n a

  -- Whether a test passes on some member.
  abbrev pub any : (A → Bool) → List A → Bool
  any p [] = false
  any p (x ∷ xs) = p x || any p xs

  abbrev pub All {κ} : (A → Type κ) → List A → Type κ
  All P [] = Unit
  All P (x ∷ xs) = P x × All P xs

  pub any-eq-true_cases :
      (p : A → Bool) (xs : List A) → any p xs ≡ true → (x : A) × Memᴰ x xs × (p x ≡ true)
  any-eq-true_cases p [] h = cc
  any-eq-true_cases p (x ∷ xs) h = go (p x) refl (any-eq-true_cases p xs)
    where
      go :
          (b : Bool)
          → p x ≡ b
          → (any p xs ≡ true → (y : A) × Memᴰ y xs × (p y ≡ true))
          → (y : A) × Memᴰ y (x ∷ xs) × (p y ≡ true)
      go true e rest = (x, Memᴰ.head refl, e)
      go false e rest = let (y, m, t) = rest (ground arith) in (y, Memᴰ.tail m, t)

  pub Memᴰ-any-eq-true :
      (p : A → Bool) (xs : List A) (x : A) → Memᴰ x xs → p x ≡ true → any p xs ≡ true
  Memᴰ-any-eq-true p [] x m h = elim m [ ]
  Memᴰ-any-eq-true p (y ∷ ys) x (Memᴰ.head same) h =
      let here : p y ≡ true = ap p (sym same) ∙ h in ground arith
  Memᴰ-any-eq-true p (y ∷ ys) x (Memᴰ.tail m) h =
      let rest = Memᴰ-any-eq-true p ys x m h in ground arith

abbrev pub contains : String → List String → Bool
contains s = any (λ t. str_eq t s)

pub contains-Memᴰ : (s : String) (xs : List String) → contains s xs ≡ true → Memᴰ s xs
contains-Memᴰ s xs h =
    let (t, m, e) = any-eq-true_cases (λ t. str_eq t s) xs h in rw (← (eq_iff t s).0 e) m
