-- ===== src/Checks.antt =====
-- A handler's guards, one after the other: what they have established, or the failure response that
-- the first one to fail sends. A guard reads the request and the state and changes nothing.
use keymaster.Prelude.{ℕ, String, Bool, true, false, Option, none, some, ◌≡◌, refl, arith}
use keymaster.Result.{Result, ok, err}
use keymaster.Http.{Request}
use keymaster.State.{Env}
use keymaster.Handler.{M, World, fail, continue, ◌>>◌ as and_then}
use keymaster.Respond.{write_failure_response}

pub data Checked (A : Type 0) : Type 0 where
  passed : A → Checked A
  refused : (code : ℕ) (message : String) → Checked A

infixl 5 ◌>>=◌ ◌>>◌
abbrev pub ◌>>=◌ : {A B : Type 0} → Checked A → (A → Checked B) → Checked B
passed a >>= next = next a
refused code message >>= next = refused code message

abbrev pub ◌>>◌ : {B : Type 0} → Checked (Unit {0}) → Checked B → Checked B
m >> k = m >>= λ _. k

-- `if !test { state.writeFailureResponse(w, r, code, message); return }`
abbrev pub require : Bool → (code : ℕ) (message : String) → Checked (Unit {0})
require true code message = passed tt
require false code message = refused code message

-- `if err != nil { state.writeFailureResponse(w, r, code, message); return }`
abbrev pub require_ok : {A : Type 0} → Result A → (code : ℕ) (message : String) → Checked A
require_ok (ok a) code message = passed a
require_ok (err e) code message = refused code message

abbrev pub require_some : {A : Type 0} → Option A → (code : ℕ) (message : String) → Checked A
require_some (some a) code message = passed a
require_some none code message = refused code message

-- The guards within a handler.
abbrev pub check : {A : Type 0} → Env → Request → Checked A → M A
check env r (passed a) w = (ok a, w)
check env r (refused code message) w =
    (and_then (write_failure_response env r code message) (fail message)) w

pub >>=-elim :
    {A B G : Type 0} (m : Checked A) (next : A → Checked B) {b : B}
    → (m >>= next) ≡ passed b
    → ((a : A) → m ≡ passed a → next a ≡ passed b → G)
    → G
>>=-elim (passed a) next h k = k a refl h
>>=-elim (refused code message) next h k = absurd (ground arith)

pub require-passed :
    (b : Bool) (code : ℕ) (message : String) → require b code message ≡ passed tt → b ≡ true
require-passed true code message h = refl
require-passed false code message h = absurd (ground arith)

pub require_ok-passed :
    {A : Type 0} (r : Result A) (code : ℕ) (message : String) (a : A)
    → require_ok r code message ≡ passed a
    → r ≡ ok a
require_ok-passed (ok x) code message a h = ground arith
require_ok-passed (err e) code message a h = absurd (ground arith)

pub check-ok :
    {A : Type 0} (env : Env) (r : Request) (c : Checked A) (w u : World) (a : A)
    → check env r c w ≡ (ok a, u)
    → (c ≡ passed a) × (u ≡ w)
check-ok env r (passed x) w u a h = (ground arith, ground arith)
check-ok env r (refused code message) w u a h = go (write_failure_response env r code message w) h
  where
    go :
        (x : Result (Unit {0}) × World)
        → continue x (λ _. fail message) ≡ (ok a, u)
        → (refused code message ≡ passed a) × (u ≡ w)
    go (ok t, v) e = absurd (ground arith)
    go (err e', v) e = absurd (ground arith)
