-- ===== src/Handler/Quiet.antt =====
-- Which cookies a handler sends, whatever it answers: the rules by which it sends none.
use keymaster.Prelude.{
  ℕ, String, Bool, true, false, List, [], ◌∷◌, Option, none, some, Memᴰ, ◌≡◌, refl, ◌≢◌, ◌⊎◌, inl,
  inr, if◌then◌else◌,
}
use keymaster.Result.{Result, ok, err}
use keymaster.Http.{
  Cookie, Effect, Page, set_cookie, set_header, write_header, write, http_error, redirect, render,
  login_response, set_username, publish_vip_auth,
}
use keymaster.Handler.{
  World, M, ◌>>=◌, continue, return, fail, emit, get_state, on_error, lift, reject_if,
}

-- A cookie that is among those sent after `m` was among those sent before it.
pub record Quiet {A : Type 0} (m : M A) : Type 0 where
  pub at : (c : Cookie) (w : World) → Memᴰ (set_cookie c) (m w).1.sent → Memᴰ (set_cookie c) w.sent

module _ {A B : Type 0} (m : M A) (f : A → M B) where
  pub Quiet-bind : Quiet m → ((a : A) → Quiet (f a)) → Quiet (m >>= f)
  Quiet-bind qm qf = record { at = λ c w k. qm.at c w (go c (m w) k) }
    where
      go :
          (c : Cookie) (x : Result A × World)
          → Memᴰ (set_cookie c) (continue x f).1.sent
          → Memᴰ (set_cookie c) x.1.sent
      go c (ok a, u) k = (qf a).at c u k
      go c (err e, u) k = k

  -- What is sent by `m` and then quietly is sent by `m`.
  pub quiet_after :
      ((a : A) → Quiet (f a))
      → (c : Cookie) (w : World) → Memᴰ (set_cookie c) ((m >>= f) w).1.sent
      → Memᴰ (set_cookie c) (m w).1.sent
  quiet_after qf c w k = go (m w) k
    where
      go :
          (x : Result A × World)
          → Memᴰ (set_cookie c) (continue x f).1.sent
          → Memᴰ (set_cookie c) x.1.sent
      go (ok a, u) k' = (qf a).at c u k'
      go (err e, u) k' = k'

  -- What is sent after a quiet step was sent before it, or once it has gone through.
  pub quiet_before :
      {R : Type 0}
      → Quiet m
      → (c : Cookie) (w : World) → Memᴰ (set_cookie c) ((m >>= f) w).1.sent
      → ((a : A) (u : World)
          → m w ≡ (ok a, u)
          → Memᴰ (set_cookie c) (f a u).1.sent
          → Memᴰ (set_cookie c) u.sent ⊎ R)
      → Memᴰ (set_cookie c) w.sent ⊎ R
  quiet_before {R} qm c w k rest = go (m w) refl k
    where
      go :
          (x : Result A × World)
          → m w ≡ x
          → Memᴰ (set_cookie c) (continue x f).1.sent
          → Memᴰ (set_cookie c) w.sent ⊎ R
      go (ok a, u) e k' = elim (rest a u e k') [
        | inl before ↦ inl (qm.at c w (rw e before))
        | inr raised ↦ inr raised
      ]
      go (err x, u) e k' = inl (qm.at c w (rw e k'))

pub Quiet-return : {A : Type 0} (a : A) → Quiet (return a)
Quiet-return a = record { at = λ c w k. k }

pub Quiet-fail : {A : Type 0} (e : String) → Quiet (fail {A = A} e)
Quiet-fail e = record { at = λ c w k. k }

pub Quiet-lift : {A : Type 0} (r : Result A) → Quiet (lift r)
Quiet-lift r = record { at = λ c w k. k }

pub Quiet-get_state : Quiet get_state
Quiet-get_state = record { at = λ c w k. k }

pub Quiet-emit : (x : Effect) → ((c : Cookie) → set_cookie c ≢ x) → Quiet (emit x)
Quiet-emit x other = record { at = λ c w k. go c k }
  where
    go :
        (c : Cookie) {before : List Effect}
        → Memᴰ (set_cookie c) (x ∷ before)
        → Memᴰ (set_cookie c) before
    go c (Memᴰ.head e) = absurd (other c e)
    go c (Memᴰ.tail m) = m

pub Quiet-reject_if :
    (b : Bool) (respond : M (Unit {0})) (e : String) → Quiet respond → Quiet (reject_if b respond e)
Quiet-reject_if true respond e q = record { at = λ c w k. q.at c w k }
Quiet-reject_if false respond e q = record { at = λ c w k. k }

pub Quiet-on_error :
    {A : Type 0} (m : M A) (respond : String → M (Unit {0}))
    → Quiet m
    → ((e : String) → Quiet (respond e))
    → Quiet (on_error m respond)
Quiet-on_error {A} m respond qm qr = record { at = λ c w k. qm.at c w (go c w (m w) k) }
  where
    go :
        (c : Cookie) (w : World) (x : Result A × World)
        → Memᴰ (set_cookie c) (on_error (λ _. x) respond w).1.sent
        → Memᴰ (set_cookie c) x.1.sent
    go c w (ok a, u) k = k
    go c w (err e, u) k = (qr e).at c u k

pub Quiet-if : {A : Type 0} (b : Bool) (m n : M A) → Quiet m → Quiet n → Quiet (if b then m else n)
Quiet-if true m n qm qn = qm
Quiet-if false m n qm qn = qn

pub Quiet-option :
    {A B : Type 0} (o : Option B) (m : M A) (f : B → M A)
    → Quiet m
    → ((b : B) → Quiet (f b))
    → Quiet (elim o as (λ _. M A) [ none ↦ m | some b ↦ f b ])
Quiet-option none m f qm qf = qm
Quiet-option (some b) m f qm qf = qf b

pub Quiet-list :
    {A B : Type 0} (xs : List B) (m : M A) (f : B → List B → M A)
    → Quiet m
    → ((b : B) (rest : List B) → Quiet (f b rest))
    → Quiet (elim xs as (λ _. M A) [ [] ↦ m | b ∷ rest ↦ f b rest ])
Quiet-list [] m f qm qf = qm
Quiet-list (b ∷ rest) m f qm qf = qf b rest

pub Quiet-result :
    {A B : Type 0} (x : Result B) (m : String → M A) (f : B → M A)
    → ((e : String) → Quiet (m e))
    → ((b : B) → Quiet (f b))
    → Quiet (elim x as (λ _. M A) [ err e ↦ m e | ok b ↦ f b ])
Quiet-result (err e) m f qm qf = qm e
Quiet-result (ok b) m f qm qf = qf b

pub Quiet-set_header : (name value : String) → Quiet (emit (set_header name value))
Quiet-set_header name value = Quiet-emit _ (λ c e. cc)

pub Quiet-write_header : (code : ℕ) → Quiet (emit (write_header code))
Quiet-write_header code = Quiet-emit _ (λ c e. cc)

pub Quiet-write : (text : String) → Quiet (emit (write text))
Quiet-write text = Quiet-emit _ (λ c e. cc)

pub Quiet-http_error : (text : String) (code : ℕ) → Quiet (emit (http_error text code))
Quiet-http_error text code = Quiet-emit _ (λ c e. cc)

pub Quiet-redirect : (destination : String) (code : ℕ) → Quiet (emit (redirect destination code))
Quiet-redirect destination code = Quiet-emit _ (λ c e. cc)

pub Quiet-render : (page : Page) → Quiet (emit (render page))
Quiet-render page = Quiet-emit _ (λ c e. cc)

pub Quiet-login_response :
    (message : String) (backends : List String) → Quiet (emit (login_response message backends))
Quiet-login_response message backends = Quiet-emit _ (λ c e. cc)

pub Quiet-set_username : (username : String) → Quiet (emit (set_username username))
Quiet-set_username username = Quiet-emit _ (λ c e. cc)

pub Quiet-publish_vip_auth :
    (kind username : String) → Quiet (emit (publish_vip_auth kind username))
Quiet-publish_vip_auth kind username = Quiet-emit _ (λ c e. cc)

pub ruleset quiet_rules = (
  Quiet-bind, Quiet-return, Quiet-fail, Quiet-lift, Quiet-get_state, Quiet-reject_if,
  Quiet-on_error, Quiet-if, Quiet-option, Quiet-result, Quiet-set_header, Quiet-write_header,
  Quiet-write, Quiet-http_error, Quiet-redirect, Quiet-render, Quiet-login_response,
  Quiet-set_username, Quiet-publish_vip_auth,
)
