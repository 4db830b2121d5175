-- ===== src/Handler.antt =====
-- A handler as a function on the daemon's state, the form that ParseForm has filled in, and what has
-- been sent so far, the last first. An early return is an `err`.
pub mod Keeps
pub mod Quiet
use keymaster.Prelude.{arith, String, Bool, true, false, List, ◌∷◌, ◌≡◌, refl, ap, sym, ◌∙◌}
use keymaster.Result.{Result, ok, err}
use keymaster.Http.{Effect}
use keymaster.State.{RuntimeState}

pub record World : Type 0 where
  pub state : RuntimeState
  pub form : List (String × List String)
  pub sent : List Effect

abbrev pub M : Type 0 → Type 0
M A = World → Result A × World

abbrev pub continue : {A B : Type 0} → Result A × World → (A → M B) → Result B × World
continue (ok a, w) f = f a w
continue (err e, w) f = (err e, w)

infixl 5 ◌>>=◌ ◌>>◌
abbrev pub ◌>>=◌ : {A B : Type 0} → M A → (A → M B) → M B
◌>>=◌ m f w = continue (m w) f

abbrev pub ◌>>◌ : {B : Type 0} → M (Unit {0}) → M B → M B
m >> k = m >>= λ _. k

abbrev pub return : {A : Type 0} → A → M A
return a w = (ok a, w)

abbrev pub fail : {A : Type 0} → String → M A
fail e w = (err e, w)

abbrev pub emit : Effect → M (Unit {0})
emit x w = (ok tt, record w { sent = x ∷ w.sent })

abbrev pub get_state : M RuntimeState
get_state w = (ok w.state, w)

abbrev pub put_state : RuntimeState → M (Unit {0})
put_state s w = (ok tt, record w { state = s })

-- `if err != nil { respond; return }`, the error kept as it is
abbrev on_error_from : {A : Type 0} → Result A × World → (String → M (Unit {0})) → Result A × World
on_error_from (ok a, w) respond = (ok a, w)
on_error_from (err e, w) respond = (err e, (respond e w).1)

abbrev pub on_error : {A : Type 0} → M A → (String → M (Unit {0})) → M A
on_error m respond w = on_error_from (m w) respond

-- a pure result in a handler
abbrev pub lift : {A : Type 0} → Result A → M A
lift r w = (r, w)

-- `value, err := m()` where the code goes on in both cases
abbrev pub attempt : {A : Type 0} → M A → M (Result A)
attempt m w = let (r, w') = m w in (ok r, w')

-- `if test { respond; return err }`
abbrev pub reject_if : Bool → M (Unit {0}) → String → M (Unit {0})
reject_if true respond e w = (err e, (respond w).1)
reject_if false respond e w = (ok tt, w)

-- A step that has gone through: what it returned, and the world it left.
pub >>=-eq-ok :
    {A B : Type 0} (m : M A) (f : A → M B) (w : World) {b : B} {v : World}
    → (m >>= f) w ≡ (ok b, v)
    → (a : A) × (u : World) × (m w ≡ (ok a, u)) × (f a u ≡ (ok b, v))
>>=-eq-ok {A} {B} m f w {b} {v} h = go (m w) refl h
  where
    go :
        (r : Result A × World)
        → m w ≡ r
        → continue r f ≡ (ok b, v)
        → (a : A) × (u : World) × (m w ≡ (ok a, u)) × (f a u ≡ (ok b, v))
    go (ok a, u) e h = (a, u, e, h)
    go (err x, u) e h = cc

-- A step that changes nothing when it goes through, with what it has established.
pub >>=-eq-ok_pure :
    {A B : Type 0} (P : A → Type 0) (m : M A) (f : A → M B) (w : World) {b : B} {v : World}
    → ((a : A) (u : World) → m w ≡ (ok a, u) → P a × (u ≡ w))
    → (m >>= f) w ≡ (ok b, v)
    → (a : A) × P a × (f a w ≡ (ok b, v))
>>=-eq-ok_pure P m f w pure h =
    let (a, u, e, k) = >>=-eq-ok m f w h in
    let (p, same) = pure a u e in (a, p, ap (f a) (sym same) ∙ k)

module _ {w v : World} where
  pub reject_if-ok :
      (b : Bool) (respond : M (Unit {0})) (e : String)
      → reject_if b respond e w ≡ (ok tt, v)
      → (b ≡ false) × (v ≡ w)
  reject_if-ok true respond e h = absurd (ground arith)
  reject_if-ok false respond e h = (refl, ground arith)

  pub on_error-lift_ok :
      {A : Type 0} (r : Result A) (respond : String → M (Unit {0})) (a : A)
      → on_error (lift r) respond w ≡ (ok a, v)
      → (r ≡ ok a) × (v ≡ w)
  on_error-lift_ok (ok x) respond a h = (ground arith, ground arith)
  on_error-lift_ok (err e) respond a h = absurd (ground arith)

-- The same for a goal that the rest of the steps is to prove.
pub >>=-elim :
    {A B G : Type 0} (P : A → Type 0) (m : M A) (f : A → M B) (w : World) {b : B} {v : World}
    → ((a : A) (u : World) → m w ≡ (ok a, u) → P a × (u ≡ w))
    → (m >>= f) w ≡ (ok b, v)
    → ((a : A) → P a → f a w ≡ (ok b, v) → G)
    → G
>>=-elim P m f w pure h k = let (a, p, e) = >>=-eq-ok_pure P m f w pure h in k a p e

-- The same with the world that a step has left.
pub >>=-step :
    {A B G : Type 0} (m : M A) (f : A → M B) (w : World) {b : B} {v : World}
    → (m >>= f) w ≡ (ok b, v)
    → ((a : A) (u : World) → m w ≡ (ok a, u) → f a u ≡ (ok b, v) → G)
    → G
>>=-step m f w h k = let (a, u, e, rest) = >>=-eq-ok m f w h in k a u e rest

pub on_error-ok :
    {A : Type 0} (m : M A) (respond : String → M (Unit {0})) (w : World) (a : A) (u : World)
    → on_error m respond w ≡ (ok a, u)
    → m w ≡ (ok a, u)
on_error-ok m respond w a u h = go (m w) h
  where
    go : (x : Result _ × World) → on_error_from x respond ≡ (ok a, u) → x ≡ (ok a, u)
    go (ok b, u') e = e
    go (err b, u') e = absurd (ground arith)
