-- ===== src/Handler/Keeps.antt =====
-- What has been sent stays sent: the rules by which a handler that goes through keeps an effect.
use keymaster.Prelude.{String, Bool, true, false, Memᴰ, ◌≡◌, subst, sym, ap, arith, if◌then◌else◌}
use keymaster.Result.{Result, ok}
use keymaster.Http.{Effect}
use keymaster.Handler.{
  World, M, ◌>>=◌, return, emit, get_state, on_error, lift, >>=-eq-ok, on_error-ok,
}

-- Where `m` goes through, an effect that was sent before is among those that are sent after it.
pub record Keeps {A : Type 0} (e : Effect) (m : M A) : Type 0 where
  pub at : (w v : World) (a : A) → m w ≡ (ok a, v) → Memᴰ e w.sent → Memᴰ e v.sent

module _ {e : Effect} where
  same_sent :
      {A : Type 0} (m : M A)
      → ((w v : World) (a : A) → m w ≡ (ok a, v) → v.sent ≡ w.sent)
      → Keeps e m
  same_sent m same = record { at = λ w v a h k. subst (λ l. Memᴰ e l) (sym (same w v a h)) k }

  pub Keeps-bind :
      {A B : Type 0} (m : M A) (f : A → M B)
      → Keeps e m
      → ((a : A) → Keeps e (f a))
      → Keeps e (m >>= f)
  Keeps-bind m f km kf = record {
    at = λ w v b h k.
        let (a, u, h1, h2) = >>=-eq-ok m f w h in (kf a).at u v b h2 (km.at w u a h1 k);
  }

  pub Keeps-return : {A : Type 0} (a : A) → Keeps e (return a)
  Keeps-return a = same_sent (return a) (λ w v b h. ground arith)

  pub Keeps-emit : (x : Effect) → Keeps e (emit x)
  Keeps-emit x = record {
    at = λ w v a h k. subst (λ l. Memᴰ e l) (ap (λ p. p.1.sent) h) (Memᴰ.tail k);
  }

  pub Keeps-get_state : Keeps e get_state
  Keeps-get_state = same_sent get_state (λ w v b h. ground arith)

  pub Keeps-lift : {A : Type 0} (r : Result A) → Keeps e (lift r)
  Keeps-lift r = same_sent (lift r) (λ w v b h. ap (λ p. p.1.sent) (sym h))

  pub Keeps-on_error :
      {A : Type 0} (m : M A) (respond : String → M (Unit {0}))
      → Keeps e m
      → Keeps e (on_error m respond)
  Keeps-on_error m respond km = record {
    at = λ w v a h k. km.at w v a (on_error-ok m respond w a v h) k;
  }

  pub Keeps-if :
      {A : Type 0} (b : Bool) (m n : M A) → Keeps e m → Keeps e n → Keeps e (if b then m else n)
  Keeps-if true m n km kn = km
  Keeps-if false m n km kn = kn

  pub Keeps-pure :
      {A : Type 0} (m : M A)
      → ((w v : World) (a : A) → m w ≡ (ok a, v) → v.sent ≡ w.sent)
      → Keeps e m
  Keeps-pure = same_sent

pub ruleset keeps_rules =
    (Keeps-bind, Keeps-return, Keeps-emit, Keeps-get_state, Keeps-lift, Keeps-on_error, Keeps-if)
